-- ===== src/Curriculum/Interview.antt =====
-- The interview questions in `load_curriculum` of learning/server/curriculum.py.
use flight_test_lab.Prelude.{String, List, [], ◌∷◌, contains, is_empty}
use flight_test_lab.Result.{ok, ◌>>=◌, ◌>>◌, raise_if}
use flight_test_lab.Json.{Json, Items, get}
use flight_test_lab.Curriculum.{InterviewQuestion}
use flight_test_lab.Curriculum.Values.{
  unknown_concept, no_questions, bad_interview, bad_question, duplicate_question, no_keyword,
  Checked, require_str, require_str_list,
}
use flight_test_lab.Curriculum.Files.{
  File, load_json, require_object, require_list, check_concepts, is_nil,
}

-- One round of the loop over the questions.
unfoldable pub load_question : List String → List String → Json → Checked InterviewQuestion
load_question concepts seen raw = do
  data_ ← require_object bad_question raw
  id ← require_str data_ "id"
  raise_if (contains id seen) (duplicate_question id)
  question ← require_str data_ "question"
  sample ← require_str data_ "sample_answer"
  keywords ← require_str_list data_ "keywords"
  raise_if (is_empty keywords) (no_keyword id)
  its_concepts ← require_str_list data_ "concepts"
  check_concepts (unknown_concept id) concepts its_concepts
  ok (record {
    id = id;
    question = question;
    concepts = its_concepts;
    keywords = keywords;
    sample_answer = sample;
  })

unfoldable pub load_questions : List String → List String → Items → Checked (List InterviewQuestion)
load_questions concepts seen Items.nil = ok []
load_questions concepts seen (Items.cons raw raws) = do
  question ← load_question concepts seen raw
  rest ← load_questions concepts (question.id ∷ seen) raws
  ok (question ∷ rest)

unfoldable pub load_interview : List String → File → Checked (List InterviewQuestion)
load_interview concepts file = do
  loaded ← load_json file
  data_ ← require_object bad_interview loaded
  questions ← require_list bad_interview (get "questions" data_)
  raise_if (is_nil questions) no_questions
  load_questions concepts [] questions
