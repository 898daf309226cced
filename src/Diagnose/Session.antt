-- ===== src/Diagnose/Session.antt =====
-- configs/responder/diagnose.py: run(), from the prompt to the transcript. The session answers as the
-- argument says; the start of the session is a time in seconds.
use thearchivist.Prelude.{ℕ, ◌-◌, String, Option, none, some, List, [], ◌∷◌, ℤ, Result, ok, ◌>>=◌}
use thearchivist.Text.{chars, drop_chars, join}
use thearchivist.Registry.{Registry}
use thearchivist.Store.Data.{Job, Alert}
use thearchivist.Diagnose.{Python, Diagnosis, interpret}
use thearchivist.Diagnose.Prompt.{build_prompt}

-- What subprocess.run() came to: TimeoutExpired, or the exit status, stdout and stderr, decoded
pub data SessionAnswer : Type 0 where
  timed_out : SessionAnswer
  ended : ℤ → String → String → SessionAnswer

abbrev pub status_of : SessionAnswer → Option ℤ
status_of timed_out = none
status_of (ended rc stdout stderr) = some rc

abbrev pub stdout_of : SessionAnswer → String
stdout_of timed_out = ""
stdout_of (ended rc stdout stderr) = stdout

-- s[-n:], for n > 0
abbrev pub last_chars : ℕ → String → String
last_chars n s = drop_chars (chars s - n) s

abbrev pub stderr_of : SessionAnswer → String
stderr_of timed_out = "timeout"
stderr_of (ended rc stdout stderr) = last_chars 4000 stderr

-- The dict that is written to a file, less how long the session took and what json.loads() read of it
pub record Transcript : Type 0 where
  pub path : String
  pub job_id : String
  pub begun : ℕ
  pub prompt : String
  pub rc : Option ℤ
  pub stdout : String
  pub stderr : String
  pub result : Diagnosis

-- The texts that Python prints of a list of texts, of a local time and of a number
pub record Printed : Type 0 where
  pub of_list : List String → String
  pub of_time : ℕ → String
  pub of_number : ℕ → String

module _ (py : Python) (printed : Printed) (reg : Registry) (begun : ℕ) where
  abbrev pub transcript_path : Job → String
  transcript_path job =
      join ""
        ("/var/lib/responder/transcripts/" ∷ job.id ∷ "-" ∷ printed.of_number begun ∷ ".json" ∷ [])

  abbrev pub transcript : Job → String → SessionAnswer → Diagnosis → Transcript
  transcript job prompt answer d = record {
    path = transcript_path job;
    job_id = job.id;
    begun = begun;
    prompt = prompt;
    rc = status_of answer;
    stdout = stdout_of answer;
    stderr = stderr_of answer;
    result = d;
  }

  -- run(), once the session has answered
  unfoldable pub read_answer : Job → String → SessionAnswer → Result (Diagnosis × Transcript)
  read_answer job prompt answer =
      interpret py reg job.host (stdout_of answer) >>= λ d. ok (d, transcript job prompt answer d)

  -- run()
  unfoldable pub diagnose :
      (String → SessionAnswer) → Job → List Alert → Result (Diagnosis × Transcript)
  unfolding read_answer
  diagnose session job alerts =
      build_prompt printed.of_list printed.of_time job alerts reg >>= λ prompt.
      read_answer job prompt (session prompt)
