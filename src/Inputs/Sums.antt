-- ===== src/Inputs/Sums.antt =====
-- Messages of the example of proto_rpc: numbers as they are, and a result that is not written if it
-- is zero.
use boost_practice.Base.{ℕ, ◌≡◌, ◌≢◌, refl, List, [], ◌∷◌, some, ◌==◌, if◌then◌else◌, arith}
use boost_practice.ProtoRpc.Example.{AddLibrary}

abbrev pub write_result : ℕ → List ℕ
write_result result = if result == 0 then [] else result ∷ []

abbrev pub read_result : List ℕ → ℕ
read_result [] = 0
read_result (result ∷ rest) = result

pub read_result-write_result : (n : ℕ) → read_result (write_result n) ≡ n
read_result-write_result n = ground arith

pub write_result-nonzero : (n : ℕ) → n ≢ 0 → write_result n ≢ []
write_result-nonzero n ne = λ e. ground arith

instance abbrev pub add_library : AddLibrary
add_library = record {
  serialize_req = λ values. values;
  parse_req = some;
  serialize_res = write_result;
  parse_res = read_result;
  parse-serialize_req = λ values small. refl;
  parse-serialize_res = λ result small. read_result-write_result result;
  serialize_res-zero = refl;
  serialize_res-nonzero = write_result-nonzero;
}
