-- ===== src/Inputs/Texts.antt =====
-- A message class for asio_rpc_practice: the identifier, and then the text.
use boost_practice.Base.{ℕ, refl, List, [], ◌∷◌}
use boost_practice.AsioRpc.Message.{Test, TestLibrary}

abbrev pub write_test : Test → List ℕ
write_test m = m.id ∷ m.message

abbrev pub read_test : List ℕ → Test
read_test [] = record { id = 0; message = [] }
read_test (id ∷ message) = record { id = id; message = message }

instance abbrev pub test_library : TestLibrary
test_library = record {
  serialize = write_test;
  parse = read_test;
  parse-serialize = λ m small ascii. refl;
}
