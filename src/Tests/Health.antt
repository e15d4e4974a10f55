-- ===== src/Tests/Health.antt =====
-- The theorems on readiness, for two checks that end in the other order.
use mathlib.Core.List.{Permᴰ}
use mathlib.Core.List.Permᴰ
use status_list_server.Base.{ℕ, none, List, [], ◌∷◌, err, refl}
use status_list_server.Server.Health.{CheckResult, Readiness, always_ready, db_check, ready}
use status_list_server.Server.Health.Verdict.{IsJoinOrder, Tells, ready-Tells}

-- The second task ends first.
abbrev turned : List CheckResult → List CheckResult
turned [] = []
turned (a ∷ []) = a ∷ []
turned (a ∷ b ∷ rest) = b ∷ a ∷ rest

turned-IsJoinOrder : IsJoinOrder turned
turned-IsJoinOrder [] = ∣ Permᴰ.refl [] ∣₁
turned-IsJoinOrder (a ∷ []) = ∣ Permᴰ.refl (a ∷ []) ∣₁
turned-IsJoinOrder (a ∷ b ∷ rest) = ∣ Permᴰ.swap refl refl ∣₁

abbrev readiness : Readiness ℕ
readiness = record {
  checks = always_ready "memory" ∷ db_check (λ s. err "gone") ∷ [];
  cache = none;
}

ready-Tells_example : Tells readiness 7 (ready "panic" turned readiness 7 100 200).0
ready-Tells_example = ready-Tells "panic" turned readiness 7 100 200 turned-IsJoinOrder tt
