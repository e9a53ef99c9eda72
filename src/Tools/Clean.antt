-- ===== src/Tools/Clean.antt =====
-- `Executor::clean` (src/executor.cpp): the outputs and their depfiles are removed. The state is which
-- files exist; a parameter says which of them can be removed.
use catalyst_build_executor.Base.{
  ◌≡◌, refl, sym, ap, ◌∙◌, inl, inr, Bool, true, false, ◌&&◌, ◌||◌, not, Bytes, List, [], ◌∷◌, ◌++◌,
  All, arith, if◌then◌else◌, Bool-cases, codes, bytes_eq, bytes_eq_iff,
}
use catalyst_build_executor.Domain.{BuildStep, Result, ok, thrown, ◌>>=◌, >>=-eq-ok, cannot_map}
use catalyst_build_executor.Graph.{BuildGraph}

abbrev pub Existing : Type 0
Existing = Bytes → Bool

abbrev pub without : Bytes → Existing → Existing
without path files = λ q. if bytes_eq path q then false else files q

abbrev pub depfile_of : BuildStep → Bytes
depfile_of step = step.output ++ codes ".d"

module _ (removable : Bytes → Bool) where
  -- `remove` with an error code: a file that cannot be removed stays.
  unfoldable pub remove_output : Bytes → Existing → Existing
  remove_output path files = if files path && removable path then without path files else files

  -- `remove` without one throws.
  unfoldable pub remove_depfile : Bytes → Existing → Result Existing
  remove_depfile path files =
      if files path
      then if removable path then ok (without path files) else thrown (cannot_map path)
      else ok files

  unfoldable pub clean_step : BuildStep → Existing → Result Existing
  clean_step step files = remove_depfile (depfile_of step) (remove_output step.output files)

  -- The loop over the steps.
  unfoldable pub clean_steps : List BuildStep → Existing → Result Existing
  clean_steps [] files = ok files
  clean_steps (step ∷ steps) files = clean_step step files >>= λ files'. clean_steps steps files'

  unfoldable pub clean : BuildGraph → Existing → Result Existing
  clean g files = clean_steps g.steps files

  -- The files that `clean` is about.
  abbrev pub targets : List BuildStep → List Bytes
  targets [] = []
  targets (step ∷ steps) = step.output ∷ depfile_of step ∷ targets steps

  abbrev pub contains : Bytes → List Bytes → Bool
  contains q [] = false
  contains q (path ∷ paths) = bytes_eq path q || contains q paths

  -- The files that are left when those of a list are removed that can be.
  abbrev pub left_of : List Bytes → Existing → Existing
  left_of paths files = λ q. files q && not (removable q && contains q paths)

  remove_output-left_of :
      (path : Bytes) (files : Existing) (q : Bytes)
      → remove_output path files q ≡ left_of (path ∷ []) files q
  unfolding remove_output
  remove_output-left_of path files q = elim (Bool-cases (bytes_eq path q)) [
    | inl same ↦
        let e : path ≡ q = (bytes_eq_iff path q).0 same in
        ground (arith, ap files e, ap removable e)
    | inr differ ↦ ground arith
  ]

  remove_depfile-left_of :
      (path : Bytes) (files files' : Existing)
      → remove_depfile path files ≡ ok files'
      → (q : Bytes) → files' q ≡ left_of (path ∷ []) files q
  unfolding remove_depfile
  remove_depfile-left_of path files files' e q = elim (Bool-cases (files path)) [
    | inr missing ↦
        let same : files ≡ files' = cc (rw missing at e) in
        ap (λ f. f q) (sym same) ∙ elim (Bool-cases (bytes_eq path q)) [
          | inl is_q ↦ let at_q = ap files ((bytes_eq_iff path q).0 is_q) in ground arith
          | inr differ ↦ ground arith
        ]
    | inl there ↦ elim (Bool-cases (removable path)) [
      | inr stuck ↦ cc (rw stuck at (rw there at e))
      | inl can ↦
          let same : without path files ≡ files' = cc (rw can at (rw there at e)) in
          ap (λ f. f q) (sym same) ∙ elim (Bool-cases (bytes_eq path q)) [
            | inl is_q ↦ let at_q = ap removable ((bytes_eq_iff path q).0 is_q) in ground arith
            | inr differ ↦ ground arith
          ]
    ]
  ]

  clean_steps-left_of :
      (steps : List BuildStep) (files files' : Existing)
      → clean_steps steps files ≡ ok files'
      → (q : Bytes) → files' q ≡ left_of (targets steps) files q
  unfolding clean_steps clean_step
  clean_steps-left_of [] files files' e q =
      let same : files ≡ files' = cc in ap (λ f. f q) (sym same) ∙ ground arith
  clean_steps-left_of (step ∷ steps) files files' e q =
      let (mid, first, rest) = >>=-eq-ok (clean_step step files) _ e in
      ground (
        arith,
        clean_steps-left_of steps mid files' rest q,
        remove_depfile-left_of (depfile_of step) (remove_output step.output files) mid first q,
        remove_output-left_of step.output files q,
      )

  -- `clean` throws only where a depfile cannot be removed.
  remove_depfile-eq-ok :
      (path : Bytes) (files : Existing)
      → removable path ≡ true
      → (files' : Existing) × (remove_depfile path files ≡ ok files')
  unfolding remove_depfile
  remove_depfile-eq-ok path files can = elim (Bool-cases (files path)) [
    | inl there ↦ (without path files, rw (there, can) refl)
    | inr missing ↦ (files, rw missing refl)
  ]

  clean_steps-eq-ok :
      (steps : List BuildStep) (files : Existing)
      → All (λ step. removable (depfile_of step) ≡ true) steps
      → (files' : Existing) × (clean_steps steps files ≡ ok files')
  unfolding clean_steps clean_step
  clean_steps-eq-ok [] files h = (files, refl)
  clean_steps-eq-ok (step ∷ steps) files (h, hs) =
      let (mid, first) =
        remove_depfile-eq-ok (depfile_of step) (remove_output step.output files) h in
      let (files', rest) = clean_steps-eq-ok steps mid hs in
      (files', ap (λ r. r >>= clean_steps steps) first ∙ rest)

  -- Where each depfile that may be there can be removed, `clean` comes to its end, and exactly the outputs
  -- and the depfiles are gone, apart from outputs that cannot be removed; every other file is as it was.
  pub clean-left_of :
      (g : BuildGraph) (files : Existing)
      → All (λ step. removable (depfile_of step) ≡ true) g.steps
      → (files' : Existing) × (clean g files ≡ ok files')
        × ((q : Bytes) → files' q ≡ left_of (targets g.steps) files q)
  unfolding clean
  clean-left_of g files h =
      let (files', e) = clean_steps-eq-ok g.steps files h in
      (files', e, λ q. clean_steps-left_of g.steps files files' e q)
