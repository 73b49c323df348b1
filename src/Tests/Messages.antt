-- ===== src/Tests/Messages.antt =====
-- Values in the body of a message.
use network_study.Prelude.{ℕ, ◌≡◌, refl, List, [], ◌∷◌, some, ◌>>=◌, arith}
use network_study.Message.{Message, new_message, push_all, pull_all}
use network_study.Message.RoundTrip.{pull_all-push_all}

abbrev blank : Message ℕ
blank = new_message 7

abbrev two_values : List (List ℕ)
two_values = (1 ∷ 2 ∷ []) ∷ (3 ∷ []) ∷ []

pull_all-push_all_example :
    (push_all blank two_values >>= pull_all (1 ∷ 2 ∷ []))
    ≡ some ((3 ∷ []) ∷ (1 ∷ 2 ∷ []) ∷ [], blank)
pull_all-push_all_example = pull_all-push_all blank two_values refl (omega arith)
