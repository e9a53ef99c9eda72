-- ===== src/Cli/RoundTrip.antt =====
-- Each configuration has a command line that gives it.
use mathlib.Core.List.{append_assoc, append-nil}
use catalyst_build_executor.Base.{
  substr-append_left, find-append_self, drop-append_self, ◌+◌, ◌≤◌, ◌≡◌, refl, sym, ap, ◌∙◌, inl,
  inr, Bool, true, false, Bytes, List, [], ◌∷◌, ◌++◌, none, some, length, All, Bool-cases, codes,
  bytes_eq, bytes_eq_iff, drop, find,
}
use catalyst_build_executor.Domain.{Result, ok, unexpected, thrown, ◌>>=◌, invalid_job_count}
use catalyst_build_executor.Chars.{decimal, from_chars-decimal, size_max}
use catalyst_build_executor.Cli.{
  CliArgs, default_args, definition, arg_of, override_of, takes_value, set_value, set_flag,
  set_tool, parse_loop, cli_args,
}

abbrev flag : Bool → Bytes → List Bytes
flag true word = word ∷ []
flag false word = []

abbrev pub tool_words : Bool → Bytes → List Bytes
tool_words true name = codes "-t" ∷ name ∷ []
tool_words false name = []

abbrev pub override_words : List (Bytes × Bytes) → List Bytes
override_words [] = []
override_words ((variable, value) ∷ ds) = (variable ++ b'=' ∷ value) ∷ override_words ds

-- A command line for a configuration.
abbrev pub words_of : CliArgs → List Bytes
words_of par =
    codes "-C"
    ∷ par.work_dir
    ∷ codes "-f"
    ∷ par.config.build_file
    ∷ codes "--estimates"
    ∷ par.config.estimates_file
    ∷ codes "--build-log"
    ∷ par.config.build_log_file
    ∷ codes "-j"
    ∷ decimal par.config.jobs
    ∷ (flag par.config.dry_run (codes "-n")
        ++ (flag par.config.silent (codes "-s")
            ++ (flag par.config.keep_going (codes "-k")
                ++ (tool_words par.config.clean (codes "clean")
                    ++ (tool_words par.compdb (codes "compdb")
                        ++ (tool_words par.graph (codes "graph")
                            ++ (tool_words par.commands (codes "commands")
                                ++ override_words par.definition_overrides)))))))

>>=-ok {ℓ} : {A : Type ℓ} (r : Result A) → (r >>= λ a. ok a) ≡ r
>>=-ok (ok a) = refl
>>=-ok (unexpected e) = refl
>>=-ok (thrown e) = refl

-- An argument without a value.
parse_loop-flag :
    (arg : Bytes) (rest : List Bytes) (par : CliArgs)
    → takes_value (arg_of arg) ≡ false
    → parse_loop (arg ∷ rest) par ≡ (set_flag arg (arg_of arg) par >>= parse_loop rest)
unfolding parse_loop
parse_loop-flag arg [] par e = rw e (sym (>>=-ok (set_flag arg (arg_of arg) par)))
parse_loop-flag arg (value ∷ rest) par e = rw (e, parse_loop) refl

parse_loop-value :
    (arg value : Bytes) (rest : List Bytes) (par : CliArgs)
    → takes_value (arg_of arg) ≡ true
    → parse_loop (arg ∷ value ∷ rest) par ≡ (set_value (arg_of arg) value par >>= parse_loop rest)
unfolding parse_loop
parse_loop-value arg value rest par e = rw (e, parse_loop) refl

-- A text with a '=' is none of the options.
differs :
    (variable value word : Bytes)
    → find b'=' variable ≡ none
    → find b'=' word ≡ none
    → bytes_eq (variable ++ b'=' ∷ value) word ≡ false
differs variable value word plain e = elim (Bool-cases (bytes_eq (variable ++ b'=' ∷ value) word)) [
  | inr no_word ↦ no_word
  | inl is_word ↦
      let same : variable ++ b'=' ∷ value ≡ word = (bytes_eq_iff _ word).0 is_word in
      cc (find-append_self b'=' variable value plain, e, ap (find b'=') same)
]

arg_of-definition :
    (variable value : Bytes)
    → find b'=' variable ≡ none
    → arg_of (variable ++ b'=' ∷ value) ≡ definition variable value
unfolding arg_of find
arg_of-definition variable value plain =
    let no : (word : Bytes)
        → find b'=' word ≡ none
        → bytes_eq (variable ++ b'=' ∷ value) word ≡ false =
      λ word e. differs variable value word plain e in
    rw
      (
        no (codes "-h") refl,
        no (codes "--help") refl,
        no (codes "-v") refl,
        no (codes "--version") refl,
        no (codes "-C") refl,
        no (codes "-f") refl,
        no (codes "--estimates") refl,
        no (codes "--build-log") refl,
        no (codes "--error-log") refl,
        no (codes "-j") refl,
        no (codes "--jobs") refl,
        no (codes "-n") refl,
        no (codes "--dry-run") refl,
        no (codes "-t") refl,
        no (codes "-s") refl,
        no (codes "--silent") refl,
        no (codes "-k") refl,
        no (codes "--keep-going") refl,
      )
      (rw (find-append_self b'=' variable value plain, override_of)
        (ap (λ v. definition v (drop (length variable + 1) (variable ++ b'=' ∷ value)))
            (substr-append_left variable (b'=' ∷ value))
          ∙ ap (definition variable) (drop-append_self b'=' variable value)))

parse_loop-overrides :
    (ds : List (Bytes × Bytes)) (par : CliArgs)
    → All (λ d. find b'=' d.0 ≡ none) ds
    → parse_loop (override_words ds) par
      ≡ ok (record par { definition_overrides = par.definition_overrides ++ ds })
unfolding parse_loop set_flag
parse_loop-overrides [] par h =
    ap (λ l. ok (record par { definition_overrides = l }))
      (sym (append-nil par.definition_overrides))
parse_loop-overrides ((variable, value) ∷ ds) par h =
    let e = arg_of-definition variable value h.0 in
    parse_loop-flag (variable ++ b'=' ∷ value) (override_words ds) par (ap takes_value e)
    ∙ ap (λ a. set_flag (variable ++ b'=' ∷ value) a par >>= parse_loop (override_words ds)) e
    ∙ parse_loop-overrides ds
        (record par { definition_overrides = par.definition_overrides ++ (variable, value) ∷ [] })
        h.1
    ∙ ap (λ l. ok (record par { definition_overrides = l }))
        (append_assoc par.definition_overrides ((variable, value) ∷ []) ds)

-- A flag, or nothing, for a setting that starts as false.
parse_loop-optional :
    (setting : Bool → CliArgs) (word : Bytes) (rest : List Bytes) (b : Bool)
    → takes_value (arg_of word) ≡ false
    → set_flag word (arg_of word) (setting false) ≡ ok (setting true)
    → parse_loop (flag b word ++ rest) (setting false) ≡ parse_loop rest (setting b)
parse_loop-optional setting word rest false is_flag e = refl
parse_loop-optional setting word rest true is_flag e =
    parse_loop-flag word rest (setting false) is_flag ∙ ap (λ r. r >>= parse_loop rest) e

parse_loop-tool :
    (setting : Bool → CliArgs) (name : Bytes) (rest : List Bytes) (b : Bool)
    → set_tool name (setting false) ≡ ok (setting true)
    → parse_loop (tool_words b name ++ rest) (setting false) ≡ parse_loop rest (setting b)
unfolding arg_of bytes_eq set_value
parse_loop-tool setting name rest false e = refl
parse_loop-tool setting name rest true e =
    parse_loop-value (codes "-t") name rest (setting false) refl ∙ ap (λ r. r >>= parse_loop rest) e

-- The options on the way: the values are set, and of the settings those that are given.
abbrev stage : CliArgs → (dry_run silent keep_going clean compdb graph commands : Bool) → CliArgs
stage par dry_run silent keep_going clean compdb graph commands = record {
  config = record par.config {
    dry_run = dry_run;
    silent = silent;
    keep_going = keep_going;
    clean = clean;
  };
  compdb = compdb;
  graph = graph;
  commands = commands;
  work_dir = par.work_dir;
  definition_overrides = [];
}

abbrev with_values : List Bytes → CliArgs → List Bytes
with_values rest par =
    codes "-C"
    ∷ par.work_dir
    ∷ codes "-f"
    ∷ par.config.build_file
    ∷ codes "--estimates"
    ∷ par.config.estimates_file
    ∷ codes "--build-log"
    ∷ par.config.build_log_file
    ∷ codes "-j"
    ∷ decimal par.config.jobs
    ∷ rest

parse_loop-values :
    (par : CliArgs) (rest : List Bytes)
    → par.config.jobs ≤ size_max
    → parse_loop (with_values rest par) default_args
      ≡ parse_loop rest (stage par false false false false false false false)
unfolding parse_loop arg_of bytes_eq set_value
parse_loop-values par rest h =
    ap
      (λ o.
        (elim o as (λ x. Result CliArgs) [
          | none ↦ unexpected (invalid_job_count (decimal par.config.jobs))
          | some n ↦ ok (record (stage par false false false false false false false) {
            config = record (stage par false false false false false false false).config {
              jobs = n;
            };
          })
        ])
        >>= parse_loop rest)
      (from_chars-decimal par.config.jobs h)

-- For each configuration whose number of jobs has 64 bits and whose overrides have no '=' in their
-- names, its command line is read as the configuration.
pub cli_args-words_of :
    (par : CliArgs)
    → par.config.jobs ≤ size_max
    → All (λ d. find b'=' d.0 ≡ none) par.definition_overrides
    → cli_args (words_of par) ≡ ok par
unfolding cli_args arg_of bytes_eq set_flag set_tool
cli_args-words_of par h plain =
    let c = par.config in
    let overrides = override_words par.definition_overrides in
    let w₁ = tool_words par.commands (codes "commands") ++ overrides in
    let w₂ = tool_words par.graph (codes "graph") ++ w₁ in
    let w₃ = tool_words par.compdb (codes "compdb") ++ w₂ in
    let w₄ = tool_words c.clean (codes "clean") ++ w₃ in
    let w₅ = flag c.keep_going (codes "-k") ++ w₄ in
    let w₆ = flag c.silent (codes "-s") ++ w₅ in
    parse_loop-values par (flag c.dry_run (codes "-n") ++ w₆) h
    ∙ parse_loop-optional (λ b. stage par b false false false false false false) (codes "-n") w₆
        c.dry_run refl refl
    ∙ parse_loop-optional (λ b. stage par c.dry_run b false false false false false) (codes "-s") w₅
        c.silent refl refl
    ∙ parse_loop-optional (λ b. stage par c.dry_run c.silent b false false false false) (codes "-k")
        w₄ c.keep_going refl refl
    ∙ parse_loop-tool (λ b. stage par c.dry_run c.silent c.keep_going b false false false)
        (codes "clean") w₃ c.clean refl
    ∙ parse_loop-tool (λ b. stage par c.dry_run c.silent c.keep_going c.clean b false false)
        (codes "compdb") w₂ par.compdb refl
    ∙ parse_loop-tool (λ b. stage par c.dry_run c.silent c.keep_going c.clean par.compdb b false)
        (codes "graph") w₁ par.graph refl
    ∙ parse_loop-tool
        (λ b. stage par c.dry_run c.silent c.keep_going c.clean par.compdb par.graph b)
        (codes "commands") overrides par.commands refl
    ∙ parse_loop-overrides par.definition_overrides
        (stage par c.dry_run c.silent c.keep_going c.clean par.compdb par.graph par.commands) plain
