-- ===== src/Http/ThreadPool.antt =====
-- src/http/thread_pool.h: the pool of workers. What a thread does under the mutex is one step, as is
-- a notification; the threads' steps may come in any order. A task is a value of any type: what it
-- computes, and the future that hands that on, are the client's.
pub mod Schedule
mod Tests
use ebpf_system_monitor.Base.{
  ℕ, zero, suc, ◌+◌, Bool, true, false, not, ◌&&◌, Option, none, some, List, [], ◌∷◌, ◌++◌, ◌==◌,
  if◌then◌else◌, add64, sub64, length, replicate, get_or, set, map,
}

-- Where a worker is: before the locked part of `worker_loop`, in `m_cv.wait`, in its task, or
-- returned.
pub data Worker (A : Type 0) : Type 0 where
  deciding : Worker A
  asleep : Worker A
  running : A → Worker A
  exited : Worker A

pub record ThreadPool (A : Type 0) : Type 0 where
  pub m_tasks : List A
  pub m_workers : List (Worker A)
  pub m_stop : Bool
  pub m_pending : ℕ
  pub m_completed : ℕ

module _ {A : Type 0} where
  unfoldable pub construct : ℕ → ThreadPool A
  construct thread_count = record {
    m_tasks = [];
    m_workers = replicate (if thread_count == 0 then 1 else thread_count) deciding;
    m_stop = false;
    m_pending = 0;
    m_completed = 0;
  }

  -- The locked part of `submit`; `none` is the exception.
  unfoldable pub push : A → ThreadPool A → Option (ThreadPool A)
  push task p =
      if p.m_stop
      then none
      else some (record p { m_tasks = p.m_tasks ++ (task ∷ []); m_pending = add64 p.m_pending 1 })

  abbrev pub worker_at : ThreadPool A → ℕ → Worker A
  worker_at p i = get_or p.m_workers i exited

  abbrev pub set_worker : ThreadPool A → ℕ → Worker A → ThreadPool A
  set_worker p i w = record p { m_workers = set p.m_workers i w }

  -- The locked part of `worker_loop`, by the tasks and the stop flag: it waits, returns, or takes the
  -- front task.
  unfoldable pub decide_on : List A → Bool → ℕ → ThreadPool A → ThreadPool A
  decide_on [] true i p = set_worker p i exited
  decide_on [] false i p = set_worker p i asleep
  decide_on (task ∷ rest) stop i p = record (set_worker p i (running task)) {
    m_tasks = rest;
    m_pending = sub64 p.m_pending 1;
  }

  -- The locked part of a worker that does not wait or has been woken.
  unfoldable pub decide : ℕ → ThreadPool A → ThreadPool A
  unfolding decide_on
  decide i p = decide_on p.m_tasks p.m_stop i p

  -- The end of `task()`: the guard counts, and the loop begins again.
  unfoldable pub complete : ℕ → ThreadPool A → ThreadPool A
  complete i p = record (set_worker p i deciding) { m_completed = add64 p.m_completed 1 }

  -- A worker comes back from waiting.
  unfoldable pub wake : ℕ → ThreadPool A → ThreadPool A
  wake i p = set_worker p i deciding

  abbrev pub woken : Worker A → Worker A
  woken asleep = deciding
  woken deciding = deciding
  woken (running task) = running task
  woken exited = exited

  unfoldable pub notify_all : ThreadPool A → ThreadPool A
  notify_all p = record p { m_workers = map woken p.m_workers }

  -- The locked part of the destructor.
  unfoldable pub stop : ThreadPool A → ThreadPool A
  stop p = record p { m_stop = true }

  unfoldable pub size : ThreadPool A → ℕ
  size p = length p.m_workers
