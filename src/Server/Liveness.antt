-- ===== src/Server/Liveness.antt =====
-- Any number of requests at once to learning/server/app.py, over a curriculum that the loader accepts.
use flight_test_lab.Prelude.{◌≡◌, ◌⊎◌, String, List, [], ◌∷◌, All, map}
use flight_test_lab.Result.{ok}
use flight_test_lab.Curriculum.Values.{Site}
use flight_test_lab.Curriculum.Files.{Files}
use flight_test_lab.Curriculum.Load.{load_curriculum}
use flight_test_lab.Progress.Store.Safety.{IsComplete}
use flight_test_lab.Server.Thread.{Shared, Thread}
use flight_test_lab.Server.Request.{Request}
use flight_test_lab.Server.Payload.{Reply}
use flight_test_lab.Server.Router.{LearningServer, do_post}
use flight_test_lab.Server.Safety.{Answers}
use flight_test_lab.Server.Servable.{IsUsable, load_curriculum-IsUsable}
use flight_test_lab.Server.Answered.{IsReadable, Answers-do_post}
use flight_test_lab.Server.Schedule.{
  Step, Reach, IsAnswered, threads_halt, Halts-finish, Reach-Answers, Answers-next,
}

-- The threads of some requests, each with the time at which it is served.
abbrev pub post_threads : LearningServer → List (String × Request) → List (Thread Reply)
post_threads server requests = map (λ r. do_post server r.0 r.1) requests

all-Answers :
    (server : LearningServer) (requests : List (String × Request))
    → IsUsable server.curriculum
    → All (λ r. IsReadable server r.1) requests
    → All Answers (post_threads server requests)
all-Answers server [] usable readable = tt
all-Answers server (r ∷ rs) usable readable =
    (Answers-do_post server r.0 r.1 usable readable.0, all-Answers server rs usable readable.1)

module _ (site : Site) (files : Files) (server : LearningServer)
    (requests : List (String × Request)) (p : Shared)
    (loaded : load_curriculum site files ≡ ok server.curriculum)
    (complete : IsComplete p.progress.state)
    (readable : All (λ r. IsReadable server r.1) requests) where
  ready : All Answers (post_threads server requests)
  ready = all-Answers server requests (load_curriculum-IsUsable site files loaded) readable

  -- Over a curriculum that the loader accepts, and from complete records, POSTs whose target and
  -- `Origin` can be read are served in any interleaving of their steps: at every moment the records are complete, and
  -- some thread can go on or each request has been answered, so that no thread ends with an exception.
  pub do_post-IsComplete :
      (us : List (Thread Reply)) (q : Shared)
      → Reach (post_threads server requests) p us q
      → IsComplete q.progress.state
        × (((vs : List (Thread Reply)) × (r : Shared) × Step us q vs r) ⊎ All IsAnswered us)
  do_post-IsComplete us q reached =
      let (c, k) = Reach-Answers reached complete ready in (c, Answers-next us q k)

  -- Over a curriculum that the loader accepts, and from complete records, whatever the threads of some
  -- POSTs have done so far, they can go on until every one of the requests is answered, if the target
  -- and the `Origin` of each can be read.
  pub do_post-finish :
      (us : List (Thread Reply)) (q : Shared)
      → Reach (post_threads server requests) p us q
      → (vs : List (Thread Reply)) × (r : Shared) × Reach us q vs r × All IsAnswered vs
  do_post-finish us q reached =
      let (c, k) = Reach-Answers reached complete ready in Halts-finish us q (threads_halt us) c k
