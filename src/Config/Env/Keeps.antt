-- ===== src/Config/Env/Keeps.antt =====
-- Loading a file sets what is not set, and changes nothing else.
use cordn_rs.Common.{
  ◌≡◌, Option-cases, Bool-cases, inl, inr, Option, none, some, List, [], ◌∷◌, any, ◌==◌, ok, Str,
  str_discrete, arith, if◌then◌else◌, bind-ok, str_eq, or_else,
}
use cordn_rs.Common.Assoc.{lookup, insert, lookup-insert}
use cordn_rs.Common.Strings.{lines}
use cordn_rs.Config.Env.{
  Env, parse_env_assignment, set_var, load_line, load_lines, load_env_file, load_env_files,
}

-- What the first of the lines that assigns `k` gives it.
unfoldable pub assigned : Str → List Str → Option Str
assigned k [] = none
assigned k (line ∷ rest) =
    let later = assigned k rest in
    elim (parse_env_assignment line) [
      | none ↦ later
      | some (key, value) ↦ if str_eq key k then some value else later
    ]

abbrev pub assigned_in : Str → Option Str → Option Str
assigned_in k none = none
assigned_in k (some content) = assigned k (lines content)

set_var-sets :
    (k key value : Str) (env : Env) {env' : Env}
    → set_var key value env ≡ ok env'
    → lookup str_discrete k env' ≡ (if str_eq key k then some value else lookup str_discrete k env)
set_var-sets k key value env {env'} e = elim (Bool-cases (any (λ c. c == 0) value)) [
  | inl nul ↦ absurd (ground (arith, e, nul))
  | inr clean ↦
      let set : env' ≡ insert str_discrete key value env = ground (arith, e, clean) in
      rw set (ground (arith, lookup-insert str_discrete key k value env))
]

load_line_lem :
    (k line : Str) (env : Env) {env' : Env}
    → load_line line env ≡ ok env'
    → lookup str_discrete k env' ≡ or_else (lookup str_discrete k env) (assigned k (line ∷ []))
unfolding assigned
load_line_lem k line env {env'} e = elim (Option-cases (parse_env_assignment line)) [
  | inl nothing ↦
      let same : env ≡ env' = ground (arith, e, nothing) in ground (arith, nothing, same)
  | inr ((key, value), given) ↦ elim (Option-cases (lookup str_discrete key env)) [
    | inl free ↦
        let set = set_var-sets k key value env {env' = env'} (ground (arith, e, given, free)) in
        ground (arith, given, free, set)
    | inr (w, taken) ↦
        let same : env ≡ env' = ground (arith, e, given, taken) in
        ground (arith, given, taken, same)
  ]
]

load_lines_lem :
    (k : Str) (file : List Str) (env : Env) {env' : Env}
    → load_lines file env ≡ ok env'
    → lookup str_discrete k env' ≡ or_else (lookup str_discrete k env) (assigned k file)
unfolding load_lines assigned
load_lines_lem k [] env {env'} e = let same : env ≡ env' = ground (arith, e) in ground (arith, same)
load_lines_lem k (line ∷ rest) env e =
    let (next, first, later) = bind-ok (load_line line env) (λ m. load_lines rest m) e in
    ground (arith, load_lines_lem k rest next later, load_line_lem k line env first)

load_env_file_lem :
    (k : Str) (content : Option Str) (env : Env) {env' : Env}
    → load_env_file content env ≡ ok env'
    → lookup str_discrete k env' ≡ or_else (lookup str_discrete k env) (assigned_in k content)
unfolding load_env_file
load_env_file_lem k none env {env'} e =
    let same : env ≡ env' = ground (arith, e) in ground (arith, same)
load_env_file_lem k (some content) env e = load_lines_lem k (lines content) env e

-- If the files are loaded, each variable has the value that it had before; else the first that `.env`
-- assigns to it; else the first that `.env.local` assigns.
pub load_env_files_lem :
    (dot_env dot_env_local : Option Str) (env : Env) {env' : Env} (k : Str)
    → load_env_files dot_env dot_env_local env ≡ ok env'
    → lookup str_discrete k env'
      ≡ or_else
          (lookup str_discrete k env)
          (or_else (assigned_in k dot_env) (assigned_in k dot_env_local))
unfolding load_env_files
load_env_files_lem dot_env dot_env_local env k e =
    let (middle, first, later) =
      bind-ok (load_env_file dot_env env) (λ m. load_env_file dot_env_local m) e in
    ground
      (arith, load_env_file_lem k dot_env env first, load_env_file_lem k dot_env_local middle later)
