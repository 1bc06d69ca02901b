-- ===== src/DataList/Runs.antt =====
-- Runs of the data lists on lists of protocol names, and the theorems applied to them.
use quic.Prelude.{ℕ, ◌≡◌, List, [], ◌∷◌, arith}
use quic.Prelude.Result.{ok, ◌>>=◌}
use quic.DataList.{data_to_string, data_from_string}
use quic.DataList.Encoding.{encode}
use quic.DataList.Text.{data_from_string-data_to_string, IsToken}

-- The names "h3" and "dq".
abbrev h3 : List ℕ
h3 = 104 ∷ 51 ∷ []

abbrev dq : List ℕ
dq = 100 ∷ 113 ∷ []

abbrev names : List (List ℕ)
names = h3 ∷ dq ∷ []

h3-IsToken : IsToken h3
h3-IsToken = (omega arith, ((omega arith), ((omega arith), tt)), omega arith)

dq-IsToken : IsToken dq
dq-IsToken = (omega arith, ((omega arith), ((omega arith), tt)), omega arith)

data_from_string-data_to_string_example :
    (data_to_string 5 (encode names) >>= data_from_string 6) ≡ ok (encode names)
data_from_string-data_to_string_example =
    data_from_string-data_to_string names 5 6 (h3-IsToken, (dq-IsToken, tt)) (omega arith)
      (omega arith)
