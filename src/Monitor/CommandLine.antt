-- ===== src/Monitor/CommandLine.antt =====
-- parse_args and main. What getopt_long gives is a list, `none` from `stoul` is an exception.
use ebpf_system_monitor.Base.{
  ℕ, ◌%◌, ◌^◌, ◌<◌, Bool, true, false, Option, none, some, List, [], ◌∷◌, ◌==◌, if◌then◌else◌,
  arith, Text,
}

pub record Config : Type 0 where
  pub filter_pid : ℕ
  pub filter_port : ℕ
  pub http_port : ℕ

abbrev pub default_config : Config
default_config = record { filter_pid = 0; filter_port = 0; http_port = 9090 }

-- One result of getopt_long before -1.
pub record GetOpt : Type 0 where
  pub opt : ℕ
  pub optarg : Text

-- The ways that parse_args ends: 0 with the configuration and `g_json`, -1, 1, or an exception.
pub data Parsed : Type 0 where
  ready : Config → Bool → Parsed
  helped : Parsed
  refused : Parsed
  threw : Parsed

-- `cfg.field = static_cast<...>(std::stoul(optarg))`, and the rest of the loop.
abbrev pub with_number : Option ℕ → (ℕ → Parsed) → Parsed
with_number none f = threw
with_number (some n) f = f n

module _ (stoul : Text → Option ℕ) where
  unfoldable pub parse_args : List GetOpt → Config → Bool → Parsed
  parse_args [] cfg json = ready cfg json
  parse_args (o ∷ os) cfg json =
      let pid =
        with_number (stoul o.optarg)
          (λ n. parse_args os (record cfg { filter_pid = n % 2 ^ 32 }) json) in
      let port =
        with_number (stoul o.optarg)
          (λ n. parse_args os (record cfg { filter_port = n % 2 ^ 32 }) json) in
      let http =
        with_number (stoul o.optarg)
          (λ n. parse_args os (record cfg { http_port = n % 2 ^ 16 }) json) in
      let as_json = parse_args os cfg true in
      if o.opt == 112  -- 'p'
      then pid
      else if o.opt == 80  -- 'P'
      then port
      else if o.opt == 111  -- 'o'
      then http
      else if o.opt == 106  -- 'j'
      then as_json
      else if o.opt == 104  -- 'h'
      then helped
      else refused

-- How run_monitor ends.
pub data Ending : Type 0 where
  stopped : Ending
  ebpf_error : Ending
  other_error : Ending

abbrev pub code_of : Ending → ℕ
code_of stopped = 0
code_of ebpf_error = 1
code_of other_error = 1

-- The exit code of main; `none` is std::terminate, as parse_args stands outside the `try`.
unfoldable pub main_exit : Parsed → (Config → Bool → Ending) → Option ℕ
main_exit (ready cfg json) run_monitor = some (code_of (run_monitor cfg json))
main_exit helped run_monitor = some 0
main_exit refused run_monitor = some 1
main_exit threw run_monitor = none

-- Every number fits the field that holds it.
pub record Fits (cfg : Config) : Type 0 where
  pub pid : cfg.filter_pid < 2 ^ 32
  pub port : cfg.filter_port < 2 ^ 32
  pub http : cfg.http_port < 2 ^ 16

-- The fields are wide enough for what the options give.
pub AllFit : Parsed → Type 0
AllFit (ready cfg json) = Fits cfg
AllFit helped = Unit
AllFit refused = Unit
AllFit threw = Unit

with_number-AllFit :
    (n : Option ℕ) (f : ℕ → Parsed) → ((k : ℕ) → AllFit (f k)) → AllFit (with_number n f)
unfolding AllFit
with_number-AllFit none f h = tt
with_number-AllFit (some k) f h = h k

if-AllFit : (b : Bool) (x y : Parsed) → AllFit x → AllFit y → AllFit (if b then x else y)
if-AllFit true x y hx hy = hx
if-AllFit false x y hx hy = hy

parse_args-AllFit :
    (stoul : Text → Option ℕ) (os : List GetOpt) (cfg : Config) (json : Bool)
    → Fits cfg
    → AllFit (parse_args stoul os cfg json)
unfolding parse_args AllFit
parse_args-AllFit stoul [] cfg json v = v
parse_args-AllFit stoul (o ∷ os) cfg json v =
    let num = with_number-AllFit (stoul o.optarg) in
    let rest = parse_args-AllFit stoul os in
    if-AllFit (o.opt == 112) _ _
      (num _ λ k.
        rest (record cfg { filter_pid = k % 2 ^ 32 }) json
          (record { pid = omega arith; port = v.port; http = v.http }))
      (if-AllFit (o.opt == 80) _ _
        (num _ λ k.
          rest (record cfg { filter_port = k % 2 ^ 32 }) json
            (record { pid = v.pid; port = omega arith; http = v.http }))
        (if-AllFit (o.opt == 111) _ _
          (num _ λ k.
            rest (record cfg { http_port = k % 2 ^ 16 }) json
              (record { pid = v.pid; port = v.port; http = omega arith }))
          (if-AllFit (o.opt == 106) _ _ (rest cfg true v) (if-AllFit (o.opt == 104) _ _ tt tt))))
