-- ===== src/Bpf/HashMap.antt =====
-- The kernel's hash maps, which the programs call through helpers: an interface with the behaviour
-- that the kernel documents. A lookup gives a pointer to the value: `store` is a write through it.
use ebpf_system_monitor.Base.{
  ℕ, ◌≡◌, refl, Bool, true, false, Option, none, some, ◌==◌, if◌then◌else◌,
}

pub record HashMap (V : Type 0) : Type 1 where
  pub Map : Type 0
  pub lookup : Map → ℕ → Option V
  -- `bpf_map_update_elem` with `BPF_ANY`; `false` is an error, such as a full map.
  pub update : Map → ℕ → V → Bool × Map
  pub delete : Map → ℕ → Map
  pub store : Map → ℕ → V → Map
  pub lookup-update :
      (m : Map) (k : ℕ) (v : V)
      → (update m k v).0 ≡ true
      → (j : ℕ) → lookup (update m k v).1 j ≡ (if k == j then some v else lookup m j)
  pub lookup-update_failed :
      (m : Map) (k : ℕ) (v : V)
      → (update m k v).0 ≡ false
      → (j : ℕ) → lookup (update m k v).1 j ≡ lookup m j
  pub lookup-delete :
      (m : Map) (k j : ℕ) → lookup (delete m k) j ≡ (if k == j then none else lookup m j)
  pub lookup-store :
      (m : Map) (k : ℕ) (v w : V)
      → lookup m k ≡ some w
      → (j : ℕ) → lookup (store m k v) j ≡ (if k == j then some v else lookup m j)

-- A map without a bound, as a function.
abbrev put : {V : Type 0} → (ℕ → Option V) → ℕ → Option V → ℕ → Option V
put m k o j = if k == j then o else m j

pub put_never_fails :
    {V : Type 0} (m : ℕ → Option V) (k : ℕ) (v : V)
    → true ≡ false
    → (j : ℕ) → put m k (some v) j ≡ m j
put_never_fails m k v e j = cc

abbrev pub function_map : (V : Type 0) → HashMap V
function_map V = record {
  Map = ℕ → Option V;
  lookup = λ m k. m k;
  update = λ m k v. (true, put m k (some v));
  delete = λ m k. put m k none;
  store = λ m k v. put m k (some v);
  lookup-update = λ m k v e j. refl;
  lookup-update_failed = put_never_fails;
  lookup-delete = λ m k j. refl;
  lookup-store = λ m k v w e j. refl;
}
