-- ===== src/Jobs/Operations.antt =====
-- The operations that write the table of jobs, as steps between stores, each run to its end: those of
-- the jobs service, and of the two other services that write to it. A row is inserted
-- under an identifier that no row has, as the table's primary key demands.
use revenant_cloud.Base.{ℕ, String, ◌≡◌, false, Option, any}
use revenant_cloud.Store.{Result, Store, has_id}
use revenant_cloud.Jobs.{CreateInput, AwsState, create, create_from_schedule}
use revenant_cloud.Jobs.Claim.{RunnerAuth, ProgressInput, claim_next, update_progress}
use revenant_cloud.Jobs.Services.{Challenge, run_challenge, record_cleanup_failure}
use revenant_cloud.Jobs.Finish.{CompleteInput, complete, cancel}

pub data Operation : Store → Store → Type 0 where
  creates :
      (now id : ℕ) (db : Store) (org user : ℕ) (input : CreateInput) (answer : Result AwsState)
      → any (has_id id) db.jobs ≡ false
      → Operation db (create now id db org user input answer).1
  schedules :
      (now id : ℕ) (db : Store) (org database : ℕ) (answer : Result AwsState)
      → any (has_id id) db.jobs ≡ false
      → Operation db (create_from_schedule now id db org database answer).1
  claims :
      (secret : ℕ → Option String) (now : ℕ) (db : Store) (auth : RunnerAuth)
      → Operation db (claim_next secret now db auth).1
  reports :
      (now : ℕ) (db : Store) (id : ℕ) (input : ProgressInput) (auth : Option RunnerAuth)
      → Operation db (update_progress now db id input auth).1
  completes :
      (now : ℕ) (db : Store) (id : ℕ) (input : CompleteInput) (auth : Option RunnerAuth)
      → Operation db (complete now db id input auth).1
  challenges :
      (now id : ℕ) (db : Store) (org user : ℕ) (found : Option Challenge)
      → any (has_id id) db.jobs ≡ false
      → Operation db (run_challenge now id db org user found).1
  uncleans :
      (now : ℕ) (db : Store) (org id : ℕ) (check message : String)
      → Operation db (record_cleanup_failure now db org id check message)
  cancels : (now : ℕ) (db : Store) (org id : ℕ) → Operation db (cancel now db org id).1

-- Any number of operations, one after the other.
pub data Operations : Store → Store → Type 0 where
  none : (db : Store) → Operations db db
  more : (a b c : Store) → Operations a b → Operation b c → Operations a c

-- What every operation keeps, any number of them keep.
pub Operations-keep :
    (P : Store → Type 0)
    → ((a b : Store) → Operation a b → P a → P b)
    → (a b : Store) → Operations a b
    → P a
    → P b
Operations-keep P keep _ _ (Operations.none a) p = p
Operations-keep P keep _ _ (more a b c steps step) p =
    keep b c step (Operations-keep P keep a b steps p)
