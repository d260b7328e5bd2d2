-- ===== src/Startup/Reads.antt =====
-- The reads of src/crw.c. The answers of the system are numbers of bytes, `none` is -1.
use zprd.Prelude.{ℕ, zero, suc, List, [], ◌∷◌, Option, none, some}

-- cread: a failed read ends the program, `none`.
unfoldable pub cread : Option ℕ → Option ℕ
cread none = none
cread (some cnt) = some cnt

-- recv_n: tries again until there are bytes; `none` is a call that still waits.
unfoldable pub recv_n : List (Option ℕ) → Option ℕ
recv_n [] = none
recv_n (none ∷ answers) = recv_n answers
recv_n (some zero ∷ answers) = recv_n answers
recv_n (some (suc cnt) ∷ answers) = some (suc cnt)
