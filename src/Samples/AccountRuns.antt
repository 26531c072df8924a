-- ===== src/Samples/AccountRuns.antt =====
-- The theorem on the server of accounts at sample requests.
use os.Base.{ℕ, List, [], ◌∷◌, refl, arith, Returns}
use os.Base.Int.{ℤ, pos, ◌+ℤ◌}
use os.Text.{Text, codes, atoi}
use os.AccountServer.{Accounts, serve_all}
use os.AccountServer.Requests.{Says, Served, serve_all_lem}
use os.Samples.{text_program}

abbrev whole : Text → ℤ
whole t = pos (atoi t)

abbrev requests : List Text
requests = codes "3,20" ∷ codes "1,5" ∷ codes "3,7" ∷ []

abbrev changes : List (ℕ × ℤ)
changes = (3, pos 20) ∷ (1, pos 5) ∷ (3, pos 7) ∷ []

abbrev no_money : Accounts ℤ
no_money = record { balance = λ k. pos 0; i = 0; replies = [] }

requests-Says : Says ◌+ℤ◌ whole 4 2 requests changes
unfolding text_program
requests-Says = (
  (codes "3", codes "20", [], refl, refl, refl, omega arith),
  (
    (codes "1", codes "5", [], refl, refl, refl, omega arith),
    ((codes "3", codes "7", [], refl, refl, refl, omega arith), tt),
  ),
)

serve_all_lem_example :
    Returns (Served ◌+ℤ◌ whole 4 2 changes no_money) (serve_all ◌+ℤ◌ whole 4 2 requests no_money)
serve_all_lem_example =
    serve_all_lem ◌+ℤ◌ whole 4 2 requests changes no_money (omega arith) (omega arith) requests-Says
