-- ===== src/Tests/Cmd.antt =====
-- The settings at concrete flags and files.
use chain_stresser.Common.{ℕ, ◌≡◌, refl, none, List, [], ◌∷◌, ok}
use chain_stresser.Common.Int.{pos}
use chain_stresser.Cmd.{holds, read_accounts, check_replay}

abbrev file_keys : List ℕ
file_keys = 10 ∷ 11 ∷ 12 ∷ []

abbrev first_two : List ℕ
first_two = 10 ∷ 11 ∷ []

two_read : read_accounts (pos 2) (holds file_keys) ≡ ok first_two
unfolding read_accounts
two_read = refl

abbrev first_height : ℕ
first_height = 4

heights_pass : check_replay "http://127.0.0.1:26657" (pos 4) (pos 6) ≡ none
unfolding check_replay
heights_pass = refl
