-- ===== src/Server/Answers.antt =====
-- The reads that the handlers of learning/server/app.py share end with an answer, over a curriculum that the
-- handlers can rely on.
use flight_test_lab.Prelude.{
  ℕ, zero, suc, ◌<◌, ◌≡◌, refl, String, Bool, false, Option, none, some, List, [], ◌∷◌, All, arith,
  length, is_empty, get_elem?, inl, inr, Bool-cases,
}
use flight_test_lab.Result
use flight_test_lab.Result.{Result, ok, err}
use flight_test_lab.Json.{Json, Fields}
use flight_test_lab.Curriculum.{Lesson, Curriculum, find_block}
use flight_test_lab.Progress.{Raised, State}
use flight_test_lab.Progress.Store.Safety.{IsOk, IsComplete}
use flight_test_lab.Progress.Completion.{
  Missing, lesson_completion, completion_map, orelse, last_of, some_id,
}
use flight_test_lab.Progress.Completion.Walk.{Decides, lesson_completion_total}
use flight_test_lab.Progress.Completion.Verdict.{completion_map-eq-verdict}
use flight_test_lab.Curriculum.Places.{rank_in}
use flight_test_lab.Server.Thread.{ask, of_result}
use flight_test_lab.Server.Views.{require, reveal_hints, lesson_public, resume, snapshot}
use flight_test_lab.Server.Safety.{
  Answers, Answers-returns, Answers-bind, Answers-of_result, Answers-ask,
}
use flight_test_lab.Server.Servable.{IsHint, IsBlock, IsUsable}

revealed-IsOk :
    (level text : Result Raised Json) (rest : Result Raised (List (Json × Json)))
    → IsOk level
    → IsOk text
    → IsOk rest
    → IsOk (
        Result.◌>>=◌ level (λ u. Result.◌>>=◌ text (λ v. Result.◌>>=◌ rest (λ w. ok ((u, v) ∷ w)))))
revealed-IsOk (ok u) (ok v) (ok w) h k l = tt
revealed-IsOk (err e) text rest h k l = absurd h
revealed-IsOk (ok u) (err e) rest h k l = absurd k
revealed-IsOk (ok u) (ok v) (err e) h k l = absurd l

reveal_hints-IsOk : (n : ℕ) (hs : List Fields) → All IsHint hs → IsOk (reveal_hints n hs)
unfolding reveal_hints
reveal_hints-IsOk zero hs h = tt
reveal_hints-IsOk (suc n) [] h = tt
reveal_hints-IsOk (suc n) (x ∷ xs) h =
    revealed-IsOk (require "level" x) (require "text" x) (reveal_hints n xs) h.0.level h.0.text_
      (reveal_hints-IsOk n xs h.1)

-- The block that is found is one of the lesson's, and passes the test.
pub find_block-IsBlock :
    (p : Fields → Bool) (bs : List Fields) {b : Fields}
    → All IsBlock bs
    → find_block p bs ≡ some b
    → IsBlock b
unfolding find_block
find_block-IsBlock p [] h e = cc
find_block-IsBlock p (x ∷ xs) {b} h e = elim (Bool-cases (p x)) [
  | inl here ↦ let same : x ≡ b = cc (rw here at e) in rw (← same) h.0
  | inr there ↦ find_block-IsBlock p xs h.1 (rw there at e)
]

pub get_elem?-All {ℓ} :
    {A : Type ℓ} {P : A → Type 0} (xs : List A) (i : ℕ)
    → All P xs
    → i < length xs
    → (a : A) × (get_elem? xs i ≡ some a) × P a
get_elem?-All [] i h l = absurd (omega (arith, l))
get_elem?-All (x ∷ xs) zero h l = (x, refl, h.0)
get_elem?-All (x ∷ xs) (suc i) h l = get_elem?-All xs i h.1 (omega (arith, l))

Decides-IsOk : (b : Bool) (r : Result Raised (Bool × List Missing)) → Decides b r → IsOk r
Decides-IsOk b (ok a) d = tt
Decides-IsOk b (err e) d = absurd d

lesson_completion-IsOk :
    (s : State) (c : Curriculum) (l : Lesson) → IsComplete s → IsOk (lesson_completion s l (some c))
lesson_completion-IsOk s c l h =
    let (b, d) = lesson_completion_total s c h.lessons l in Decides-IsOk b _ d

completion_map-IsOk :
    (s : State) (c : Curriculum) → IsUsable c → IsComplete s → IsOk (completion_map s c)
completion_map-IsOk s c usable h =
    rw
      ((completion_map-eq-verdict s c (rank_in c.ordered_lesson_ids) usable.backward h.lessons
        "").0)
      tt

Answers-snapshot : Answers snapshot
Answers-snapshot = Answers-ask (λ p. ok p.state) (λ p h. tt)

pub Answers-lesson_public :
    (c : Curriculum) (l : Lesson) → All IsHint l.hints → Answers (lesson_public c l)
unfolding lesson_public
Answers-lesson_public c l hints = Answers-bind snapshot _ Answers-snapshot λ state.
    Answers-bind (ask (λ p. lesson_completion p.state l (some c))) _
      (Answers-ask _ (λ p h. lesson_completion-IsOk p.state c l h))
      λ completion.
        Answers-bind (of_result (reveal_hints _ l.hints)) _
          (Answers-of_result _ (reveal_hints-IsOk _ l.hints hints)) (λ view. Answers-returns _)

last_of-IsOk :
    (o p : Option String) (ids : List String)
    → is_empty ids ≡ false
    → IsOk (some_id (orelse o (orelse p (last_of ids))))
last_of-IsOk (some id) p ids h = tt
last_of-IsOk none (some id) ids h = tt
last_of-IsOk none none [] h = cc
last_of-IsOk none none (i ∷ []) h = tt
last_of-IsOk none none (i ∷ j ∷ ids) h = last_of-IsOk none none (j ∷ ids) refl

pub Answers-resume : (c : Curriculum) → IsUsable c → Answers (resume c)
unfolding resume
Answers-resume c usable =
    Answers-bind (ask (λ p. completion_map p.state c)) _
      (Answers-ask _ (λ p h. completion_map-IsOk p.state c usable h))
      λ complete.
        Answers-bind (ask (λ p. ok p.state.last_lesson_id)) _
          (Answers-ask (λ p. ok p.state.last_lesson_id) (λ p h. tt))
          λ last. Answers-of_result _ (last_of-IsOk _ _ c.ordered_lesson_ids usable.some_lesson)
