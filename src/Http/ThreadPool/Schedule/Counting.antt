-- ===== src/Http/ThreadPool/Schedule/Counting.antt =====
-- Sums over the workers, and how they change with one worker.
use mathlib.Core.List.{Perm, perm_middle, perm_append_comm}
use mathlib.Core.List.Perm
use ebpf_system_monitor.Base.{
  ℕ, zero, suc, ◌+◌, ◌<◌, ◌≡◌, refl, ap, sym, subst, append_assoc, true, List, [], ◌∷◌, ◌++◌, arith,
  length, get_or, set, replicate, map,
}
use ebpf_system_monitor.Http.ThreadPool.{Worker, deciding, asleep, running, exited, woken}
use ebpf_system_monitor.Http.ThreadPool.Schedule.{one_asleep, none_asleep}

module _ {A : Type 0} where
  abbrev pub one_active : Worker A → ℕ
  one_active deciding = 1
  one_active (running x) = 1
  one_active asleep = 0
  one_active exited = 0

  abbrev pub one_exited : Worker A → ℕ
  one_exited exited = 1
  one_exited deciding = 0
  one_exited asleep = 0
  one_exited (running x) = 0

  abbrev pub sum_by : (Worker A → ℕ) → List (Worker A) → ℕ
  sum_by f [] = 0
  sum_by f (w ∷ ws) = f w + sum_by f ws

  -- What a worker counts for moves from one state to the other.
  pub sum_by-set :
      (f : Worker A → ℕ) (ws : List (Worker A)) (i : ℕ) (v : Worker A)
      → i < length ws
      → sum_by f (set ws i v) + f (get_or ws i exited) ≡ sum_by f ws + f v
  sum_by-set f [] i v h = absurd (omega arith)
  sum_by-set f (w ∷ ws) zero v h = omega arith
  sum_by-set f (w ∷ ws) (suc i) v h = omega (arith, sum_by-set f ws i v)

  -- Past the end there is an exited worker.
  pub in_range :
      (ws : List (Worker A)) (i : ℕ) → one_exited (get_or ws i exited) ≡ 0 → i < length ws
  in_range [] i h = absurd (omega arith)
  in_range (w ∷ ws) zero h = omega arith
  in_range (w ∷ ws) (suc i) h = omega (arith, in_range ws i h)

  pub sum_by-all :
      (ws : List (Worker A))
      → sum_by one_asleep ws + sum_by one_active ws + sum_by one_exited ws ≡ length ws
  sum_by-all [] = omega arith
  sum_by-all (asleep ∷ ws) = omega (arith, sum_by-all ws)
  sum_by-all (deciding ∷ ws) = omega (arith, sum_by-all ws)
  sum_by-all (running x ∷ ws) = omega (arith, sum_by-all ws)
  sum_by-all (exited ∷ ws) = omega (arith, sum_by-all ws)

  pub none_asleep_iff : (ws : List (Worker A)) → none_asleep ws ≡ true → sum_by one_asleep ws ≡ 0
  none_asleep_iff [] h = refl
  none_asleep_iff (w ∷ ws) h = ground (arith, none_asleep_iff ws)

  pub none_asleep_of : (ws : List (Worker A)) → sum_by one_asleep ws ≡ 0 → none_asleep ws ≡ true
  none_asleep_of [] h = refl
  none_asleep_of (w ∷ ws) h = ground (arith, none_asleep_of ws)

  -- notify_all leaves nobody asleep, and what else they do alone.
  pub woken_asleep : (ws : List (Worker A)) → sum_by one_asleep (map woken ws) ≡ 0
  woken_asleep [] = refl
  woken_asleep (asleep ∷ ws) = omega (arith, woken_asleep ws)
  woken_asleep (deciding ∷ ws) = omega (arith, woken_asleep ws)
  woken_asleep (running x ∷ ws) = omega (arith, woken_asleep ws)
  woken_asleep (exited ∷ ws) = omega (arith, woken_asleep ws)

  pub woken_exited :
      (ws : List (Worker A)) → sum_by one_exited (map woken ws) ≡ sum_by one_exited ws
  woken_exited [] = refl
  woken_exited (asleep ∷ ws) = omega (arith, woken_exited ws)
  woken_exited (deciding ∷ ws) = omega (arith, woken_exited ws)
  woken_exited (running x ∷ ws) = omega (arith, woken_exited ws)
  woken_exited (exited ∷ ws) = omega (arith, woken_exited ws)

  pub woken_active :
      (ws : List (Worker A))
      → sum_by one_active (map woken ws) ≡ sum_by one_active ws + sum_by one_asleep ws
  woken_active [] = refl
  woken_active (asleep ∷ ws) = omega (arith, woken_active ws)
  woken_active (deciding ∷ ws) = omega (arith, woken_active ws)
  woken_active (running x ∷ ws) = omega (arith, woken_active ws)
  woken_active (exited ∷ ws) = omega (arith, woken_active ws)

  -- The tasks that are being run.
  abbrev pub task_of : Worker A → List A
  task_of (running x) = x ∷ []
  task_of deciding = []
  task_of asleep = []
  task_of exited = []

  abbrev pub in_progress : List (Worker A) → List A
  in_progress [] = []
  in_progress (w ∷ ws) = task_of w ++ in_progress ws

  pub in_progress-woken : (ws : List (Worker A)) → in_progress (map woken ws) ≡ in_progress ws
  in_progress-woken [] = refl
  in_progress-woken (asleep ∷ ws) = in_progress-woken ws
  in_progress-woken (deciding ∷ ws) = in_progress-woken ws
  in_progress-woken (running x ∷ ws) = ap (◌∷◌ x) (in_progress-woken ws)
  in_progress-woken (exited ∷ ws) = in_progress-woken ws

  pub in_progress-replicate : (n : ℕ) → in_progress (replicate {A = Worker A} n deciding) ≡ []
  in_progress-replicate zero = refl
  in_progress-replicate (suc n) = in_progress-replicate n

  -- A worker that has no task before and after.
  pub in_progress-set_idle :
      (ws : List (Worker A)) (i : ℕ) (v : Worker A)
      → task_of (get_or ws i exited) ≡ []
      → task_of v ≡ []
      → in_progress (set ws i v) ≡ in_progress ws
  in_progress-set_idle [] i v h k = refl
  in_progress-set_idle (w ∷ ws) zero v h k = rw (h, k)
  in_progress-set_idle (w ∷ ws) (suc i) v h k =
      ap (λ t. task_of w ++ t) (in_progress-set_idle ws i v h k)

  in_progress-start :
      (ws : List (Worker A)) (i : ℕ) (x : A)
      → i < length ws
      → task_of (get_or ws i exited) ≡ []
      → Perm (x ∷ in_progress ws) (in_progress (set ws i (running x)))
  in_progress-start [] i x h k = absurd (omega arith)
  in_progress-start (w ∷ ws) zero x h k = rw k (Perm.refl (x ∷ in_progress ws))
  in_progress-start (w ∷ ws) (suc i) x h k =
      Perm.trans (Perm.symm (perm_middle (task_of w) (in_progress ws)))
        (Perm.append_left (task_of w) (in_progress-start ws i x (omega arith) k))

  in_progress-finish :
      (ws : List (Worker A)) (i : ℕ) (x : A)
      → get_or ws i exited ≡ running x
      → Perm (in_progress ws) (x ∷ in_progress (set ws i deciding))
  in_progress-finish [] i x k = cc
  in_progress-finish (w ∷ ws) zero x k = rw k (Perm.refl (x ∷ in_progress ws))
  in_progress-finish (w ∷ ws) (suc i) x k =
      Perm.trans (Perm.append_left (task_of w) (in_progress-finish ws i x k))
        (perm_middle (task_of w) (in_progress (set ws i deciding)))

  -- A task that starts, and one that finishes.
  pub ran_start :
      (started finished : List A) (ws : List (Worker A)) (i : ℕ) (x : A)
      → i < length ws
      → task_of (get_or ws i exited) ≡ []
      → Perm started (finished ++ in_progress ws)
      → Perm (started ++ (x ∷ [])) (finished ++ in_progress (set ws i (running x)))
  ran_start started finished ws i x h k p = Perm.trans (perm_append_comm started (x ∷ [])) (
      Perm.trans (Perm.cons x p) (
        Perm.trans (Perm.symm (perm_middle finished (in_progress ws)))
          (Perm.append_left finished (in_progress-start ws i x h k))))

  pub ran_finish :
      (started finished : List A) (ws : List (Worker A)) (i : ℕ) (x : A)
      → get_or ws i exited ≡ running x
      → Perm started (finished ++ in_progress ws)
      → Perm started ((finished ++ (x ∷ [])) ++ in_progress (set ws i deciding))
  ran_finish started finished ws i x k p =
      subst (λ l. Perm started l)
        (sym (append_assoc finished (x ∷ []) (in_progress (set ws i deciding))))
        (Perm.trans p (Perm.append_left finished (in_progress-finish ws i x k)))
