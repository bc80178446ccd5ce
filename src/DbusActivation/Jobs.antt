-- ===== src/DbusActivation/Jobs.antt =====
-- internal/dbusactivation/engine.go: the running jobs of an Engine, one for each name.
use servicectl.Base.{
  ℕ, suc, ◌≤◌, ◌≡◌, ◌↔◌, refl, sym, ◌∙◌, Option, none, some, [], Map, get, put, delete, get-put,
  get-delete, nat_eq, ==_iff, ==_refl, arith,
}
use servicectl.Base.Text.{Text, text_eq}
use servicectl.DbusActivation.Messages.{ActivationResult}

-- The job of each name, the name of each running job, the results of the jobs that ended, and the
-- number of the next job.
pub record Engine : Type 0 where
  pub jobs : Map Text ℕ
  pub running : Map ℕ Text
  pub results : Map ℕ ActivationResult
  pub next : ℕ

abbrev pub new_engine : Engine
new_engine = record { jobs = []; running = []; results = []; next = 0 }

unfoldable pub start_job : Text → Engine → Option ℕ → Engine × ℕ
start_job name e (some job) = (e, job)
start_job name e none = (
  record e {
    jobs = put e.jobs name e.next;
    running = put e.running e.next name;
    next = suc e.next;
  },
  e.next,
)

-- The part of Activate under the lock: the job of the name, which is started where there is none.
unfoldable pub activate : Text → Engine → Engine × ℕ
unfolding start_job
activate name e = start_job name e (get e.jobs name)

-- The end of runJob.
unfoldable pub end_job : Text → ℕ → ActivationResult → Engine → Engine
end_job name job result e = record e {
  jobs = delete e.jobs name;
  running = delete e.running job;
  results = put e.results job result;
}

-- The engines that calls of Activate and ends of running jobs lead to, in whichever order.
pub data Runs : Engine → Type 0 where
  unused : Runs new_engine
  activated : {e : Engine} (name : Text) → Runs e → Runs (activate name e).0
  ended :
      {e : Engine} (name : Text) (job : ℕ) (result : ActivationResult)
      → Runs e
      → get e.running job ≡ some name
      → Runs (end_job name job result e)

-- A job is the job of a name exactly if it runs for that name.
pub record IsSingle (e : Engine) : Type 0 where
  pub known :
      (name : Text) (job : ℕ) → (get e.jobs name ≡ some job) ↔ (get e.running job ≡ some name)
  pub fresh : (job : ℕ) → e.next ≤ job → get e.running job ≡ none

start_job-IsSingle :
    (name : Text) (e : Engine) (o : Option ℕ)
    → get e.jobs name ≡ o
    → IsSingle e
    → IsSingle (start_job name e o).0
unfolding start_job
start_job-IsSingle name e (some job) same single = single
start_job-IsSingle name e none same single = record {
  known = λ other job. (
    λ h. ground (
      arith,
      get-put e.jobs name other e.next,
      get-put e.running e.next job name,
      ==_iff name other,
      single.known other job,
      single.known other e.next,
      single.fresh e.next (omega arith),
    ),
    λ h. ground (
      arith,
      get-put e.jobs name other e.next,
      get-put e.running e.next job name,
      ==_iff name other,
      single.known other job,
      same,
    ),
  );
  fresh = λ job high. ground (arith, get-put e.running e.next job name, single.fresh job);
}

end_job-IsSingle :
    (name : Text) (job : ℕ) (result : ActivationResult) (e : Engine)
    → get e.running job ≡ some name
    → IsSingle e
    → IsSingle (end_job name job result e)
unfolding end_job
end_job-IsSingle name job result e runs single = record {
  known = λ other j. (
    λ h. ground (
      arith,
      get-delete e.jobs name other,
      get-delete e.running job j,
      ==_iff name other,
      single.known other j,
      runs,
    ),
    λ h. ground (
      arith,
      get-delete e.jobs name other,
      get-delete e.running job j,
      ==_iff name other,
      single.known other j,
      single.known name job,
      runs,
    ),
  );
  fresh = λ j high. ground (arith, get-delete e.running job j, single.fresh j);
}

Runs-IsSingle : {e : Engine} → Runs e → IsSingle e
unfolding activate get
Runs-IsSingle unused = record { known = λ name job. (λ h. cc, λ h. cc); fresh = λ job high. refl }
Runs-IsSingle (activated {e} name r) =
    start_job-IsSingle name e (get e.jobs name) refl (Runs-IsSingle r)
Runs-IsSingle (ended {e} name job result r runs) =
    end_job-IsSingle name job result e runs (Runs-IsSingle r)

some_injective : {i j : ℕ} → some i ≡ some j → i ≡ j
some_injective h = cc

started-known :
    (name : Text) (e : Engine) (job : ℕ)
    → get e.jobs name ≡ some job
    → (start_job name e (get e.jobs name)).1 ≡ job
unfolding start_job
started-known name e job h = rw h refl

activated-known :
    (name : Text) (e : Engine) (o : Option ℕ)
    → get e.jobs name ≡ o
    → get (start_job name e o).0.jobs name ≡ some (start_job name e o).1
unfolding start_job
activated-known name e (some job) h = h
activated-known name e none h = ground (arith, get-put e.jobs name name e.next, ==_refl name)

-- Whatever calls of Activate and ends of jobs an engine has seen: at most one job runs for a name,
-- a call for the name gets that job if one runs, and in either case the job that it gets
-- runs for that name.
pub Runs-single :
    (e : Engine) (name : Text)
    → Runs e
    → ((i j : ℕ) → get e.running i ≡ some name → get e.running j ≡ some name → i ≡ j)
      × ((job : ℕ) → get e.running job ≡ some name → (activate name e).1 ≡ job)
      × (get (activate name e).0.running (activate name e).1 ≡ some name)
unfolding activate
Runs-single e name r =
    let single = Runs-IsSingle r in
    let after = Runs-IsSingle (activated name r) in
    (
      λ i j h k. some_injective (sym ((single.known name i).1 h) ∙ (single.known name j).1 k),
      λ job h. started-known name e job ((single.known name job).1 h),
      (after.known name (activate name e).1).0 (activated-known name e (get e.jobs name) refl),
    )
