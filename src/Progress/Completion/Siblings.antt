-- ===== src/Progress/Completion/Siblings.antt =====
-- The loop over the prerequisites, whose calls share one `seen` set: it raises nothing, and it reports
-- exactly the prerequisites that are not complete, if none below the rank was seen incomplete.
use flight_test_lab.Prelude.{
  ℕ, suc, ◌<◌, String, ◌≡◌, refl, ◌⊎◌, Bool, true, ◌||◌, List, [], ◌∷◌, arith, str_eq, eq_iff,
  contains, is_empty, all, All, Bool-cases, inl, inr,
}
use flight_test_lab.Dict.{Dict}
use flight_test_lab.Result.{Result, ok, err, ◌>>=◌}
use flight_test_lab.Curriculum.{Lesson}
use flight_test_lab.Progress.{Raised}
use flight_test_lab.Progress.Completion.{Missing, CompletionCall, missing_prerequisites}
use flight_test_lab.Progress.Completion.Gates.{Reports}
use flight_test_lab.Progress.Completion.Rule.{unseen, unseen-cons}

-- Every lesson of the set that stands below a rank is complete.
abbrev pub SeenComplete : (String → ℕ) → (String → Bool) → List String → ℕ → Type 0
SeenComplete rank cert seen k = (q : String) → contains q seen ≡ true → rank q < k → cert q ≡ true

-- A call that raised nothing has added its own lesson to the set, or nothing.
abbrev pub Settles : String → List String → Result Raised (Bool × List String) → Type 0
Settles id seen (ok (b, seen')) = (seen' ≡ seen) ⊎ (seen' ≡ id ∷ seen)
Settles id seen (err e) = ⊥

abbrev pub Answers : Bool → Result Raised (Bool × List String) → Type 0
Answers cert (ok (b, seen')) = b ≡ cert
Answers cert (err e) = ⊥

-- No exception.
abbrev pub Succeeds : Result Raised (List Missing) → Type 0
Succeeds (ok ms) = Unit
Succeeds (err e) = ⊥

Succeeds-map :
    (m : Result Raised (List Missing)) (f : List Missing → List Missing)
    → Succeeds m
    → Succeeds (m >>= λ ms. ok (f ms))
Succeeds-map (ok ms) f h = tt
Succeeds-map (err e) f h = h

Reports-map :
    (m : Result Raised (List Missing)) (f : List Missing → List Missing) (a b : Bool)
    → Reports a m
    → ((ms : List Missing) → is_empty ms ≡ a → is_empty (f ms) ≡ b)
    → Reports b (m >>= λ ms. ok (f ms))
Reports-map (ok ms) f a b h g = g ms h
Reports-map (err e) f a b h g = h

Succeeds-Reports :
    (m : Result Raised (List Missing)) (f : List Missing → List Missing) (b : Bool)
    → Succeeds m
    → ((ms : List Missing) → is_empty (f ms) ≡ b)
    → Reports b (m >>= λ ms. ok (f ms))
Succeeds-Reports (ok ms) f b h g = g ms
Succeeds-Reports (err e) f b h g = h

-- A call that settles, seen through its answer.
pub Settles-ok :
    (p : String) (seen : List String) (r : Result Raised (Bool × List String))
    → Settles p seen r
    → (a : Bool × List String) × (r ≡ ok a)
Settles-ok p seen (ok a) h = (a, refl)
Settles-ok p seen (err e) h = absurd h

module _ (d : Dict Lesson) (k : ℕ) (call : CompletionCall)
    (settles : (p : String) (seen : List String)
      → unseen seen d < k
      → Settles p seen (call p seen)) where
  settles_unseen :
      (p : String) (seen : List String) (a : Bool × List String)
      → unseen seen d < k
      → call p seen ≡ ok a
      → unseen a.1 d < k
  settles_unseen p seen a h e =
      let grown : (a.1 ≡ seen) ⊎ (a.1 ≡ p ∷ seen) = rw e at (settles p seen h) in
      elim grown [
        | inl same ↦ rw same h
        | inr added ↦ rw added (omega (arith, unseen-cons p seen d))
      ]

  pub missing_prerequisites-Succeeds :
      (ps seen : List String) → unseen seen d < k → Succeeds (missing_prerequisites call ps seen)
  unfolding missing_prerequisites
  missing_prerequisites-Succeeds [] seen h = tt
  missing_prerequisites-Succeeds (p ∷ ps) seen h =
      let (a, e) = Settles-ok p seen (call p seen) (settles p seen h) in
      let rest = missing_prerequisites-Succeeds ps a.1 (settles_unseen p seen a h e) in
      rw e (Succeeds-map (missing_prerequisites call ps a.1) _ rest)

  module _ (rank : String → ℕ) (cert : String → Bool)
      (answers : (p : String) (seen : List String)
        → unseen seen d < k
        → SeenComplete rank cert seen (suc (rank p))
        → Answers (cert p) (call p seen)) where
    answer_of :
        (p : String) (seen : List String) (a : Bool × List String)
        → unseen seen d < k
        → SeenComplete rank cert seen (suc (rank p))
        → call p seen ≡ ok a
        → a.0 ≡ cert p
    answer_of p seen a h all_seen e = rw e at (answers p seen h all_seen)

    -- After a complete prerequisite the set is still complete below the rank.
    seen_after :
        (p : String) (seen : List String) (a : Bool × List String) (n : ℕ)
        → unseen seen d < k
        → SeenComplete rank cert seen n
        → cert p ≡ true
        → call p seen ≡ ok a
        → SeenComplete rank cert a.1 n
    seen_after p seen a n h all_seen done e q in_seen low =
        let grown : (a.1 ≡ seen) ⊎ (a.1 ≡ p ∷ seen) = rw e at (settles p seen h) in
        elim grown [
          | inl same ↦ all_seen q (rw same at in_seen) low
          | inr added ↦
              let found : (str_eq p q || contains q seen) ≡ true = rw added at in_seen in
              elim (Bool-cases (str_eq p q)) [
                | inl here ↦ rw (← ((eq_iff p q).0 here)) done
                | inr there ↦ all_seen q (rw there at found) low
              ]
        ]

    pub missing_prerequisites-Reports :
        (n : ℕ) (ps seen : List String)
        → unseen seen d < k
        → SeenComplete rank cert seen n
        → All (λ p. rank p < n) ps
        → Reports (all cert ps) (missing_prerequisites call ps seen)
    unfolding missing_prerequisites
    missing_prerequisites-Reports n [] seen h all_seen low = refl
    missing_prerequisites-Reports n (p ∷ ps) seen h all_seen low =
        let (a, e) = Settles-ok p seen (call p seen) (settles p seen h) in
        let below = λ (q : String) (m : contains q seen ≡ true) (l : rank q < suc (rank p)).
          all_seen q m (omega (arith, low.0)) in
        let answer = answer_of p seen a h below e in
        let left = settles_unseen p seen a h e in
        elim (Bool-cases (cert p)) [
          | inl done ↦
              let rest =
                missing_prerequisites-Reports n ps a.1 left
                  (seen_after p seen a n h all_seen done e) low.1 in
              rw e (
                Reports-map (missing_prerequisites call ps a.1) _ (all cert ps) _ rest
                  (λ ms f. rw (answer, done) f))
          | inr open_ ↦ rw e (
              Succeeds-Reports (missing_prerequisites call ps a.1) _ _
                (missing_prerequisites-Succeeds ps a.1 left) (λ ms. rw (answer, open_)))
        ]
