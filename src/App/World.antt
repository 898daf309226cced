-- ===== src/App/World.antt =====
-- configs/responder/app.py: what a handler reads and writes. A handler runs statement by statement,
-- and what it wrote before an exception stays written.
use thearchivist.Prelude.{
  ℕ, suc, String, Bool, Option, none, some, List, [], ◌∷◌, ◌++◌, type_error, Result, ok, raise,
}
use thearchivist.Registry.{Registry, HostConfig}
use thearchivist.Diagnose.{Python}
use thearchivist.Store.Data.{Job, Store, empty_store}
use thearchivist.Store.Operations.{get}
use thearchivist.Grants.{Book, Outcome, empty_book}

-- The messages that notify.publish() sends, by their kind.
pub data Notice : Type 0 where
  rate_limited cleared diagnosis_failed diagnosed auto_fixed auto_fix_failed approve_request fixed
        failed :
      Notice

-- What a handler does to the outside, with the id of its job. `links` are the buttons.
pub data Event : Type 0 where
  published : Notice → String → List (String × String) → Event
  journaled : String → String → Event
  executed : String → String → String → Event

-- The threads that are started.
pub data Task : Type 0 where
  new_job : String → Task
  approved_job : String → Task

-- `reads` and `draws` count the calls of now() and of the secrets module so far.
pub record World : Type 0 where
  pub store : Store
  pub book : Book
  pub events : List Event
  pub tasks : List Task
  pub reads : ℕ
  pub draws : ℕ

abbrev pub empty_world : World
empty_world = record {
  store = empty_store;
  book = empty_book;
  events = [];
  tasks = [];
  reads = 0;
  draws = 0;
}

-- The configuration, and what the code takes from outside: the clock, the random tokens, and the
-- executor, whose answer may differ from run to run.
pub record Env : Type 0 where
  pub registry : Registry
  pub python : Python
  pub hash : String → String
  pub clock : ℕ → ℕ
  pub token : ℕ → String
  pub execute : HostConfig → String → ℕ → Result (Bool × String)
  pub approval_ttl : ℕ
  pub dedupe_window : ℕ
  pub jobs_per_hour : ℕ
  pub public_base : String
  pub alert_sources : List String
  pub alert_token : String

abbrev pub Exec {ℓ} : Type ℓ → Type ℓ
Exec A = World → World × Result A

module _ {ℓ} {A : Type ℓ} where
  abbrev pub pure : A → Exec A
  pure a w = (w, ok a)

  abbrev pub lift : Result A → Exec A
  lift r w = (w, r)

  abbrev pub on_store : (Store → Store × A) → Exec A
  on_store f w = let (s, a) = f w.store in (record w { store = s }, ok a)

  abbrev pub on_store_raising : (Store → Store × Result A) → Exec A
  on_store_raising f w = let (s, r) = f w.store in (record w { store = s }, r)

  abbrev pub on_book : (Book → Outcome A) → Exec A
  on_book f w = let (b, r) = f w.book in (record w { book = b }, r)

module _ {ℓ κ} {A : Type ℓ} {B : Type κ} where
  abbrev continue : (A → Exec B) → World × Result A → World × Result B
  continue f (w, ok a) = f a w
  continue f (w, raise e) = (w, raise e)

  infixl 5 ◌>>=◌
  abbrev pub ◌>>=◌ : Exec A → (A → Exec B) → Exec B
  ◌>>=◌ m f w = continue f (m w)

infixl 5 ◌>>◌
abbrev pub ◌>>◌ {ℓ} : {B : Type ℓ} → Exec (Unit {0}) → Exec B → Exec B
m >> n = m >>= λ _. n

abbrev pub emit : Event → Exec (Unit {0})
emit e w = (record w { events = w.events ++ e ∷ [] }, ok tt)

-- What is read from the tables, where it decides what comes next.
abbrev pub reading_world {ℓ} : {A : Type ℓ} → (World → Exec A) → Exec A
reading_world f w = f w w

-- threading.Thread(...).start()
abbrev pub spawn : Task → Exec (Unit {0})
spawn t w = (record w { tasks = w.tasks ++ t ∷ [] }, ok tt)

-- now()
abbrev pub now : Env → Exec ℕ
now env w = (record w { reads = suc w.reads }, ok (env.clock w.reads))

-- secrets.token_hex(), secrets.token_urlsafe()
abbrev pub draw : Env → Exec String
draw env w = (record w { draws = suc w.draws }, ok (env.token w.draws))

-- store.get(...), whose columns are read: None raises a TypeError
abbrev pub found : Option Job → Result Job
found none = raise type_error
found (some job) = ok job

abbrev pub get_job : String → Exec Job
get_job i w = (w, found (get i w.store))
