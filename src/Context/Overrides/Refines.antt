-- ===== src/Context/Overrides/Refines.antt =====
-- The services of src/assistant/core/session_context as maps from contexts, over any sequence of
-- calls and restarts.
use Prim.Native.Char.{Char}
use private_claw.Prelude.{
  true, String, ◌≡◌, refl, Option, none, some, Bool, List, [], ◌∷◌, ap, sym, ◌∙◌, subst, Bool-cases,
  Option-cases, inl, inr, if◌then◌else◌, ◌==◌, ◌||◌, string_eq, arith,
}
use private_claw.Prelude.Dict.{
  Dict, lookup, insert, erase, NodupKeys, lookup-insert, lookup-erase, insert-NodupKeys,
  erase-NodupKeys,
}
use private_claw.Subagents.Params.{strip}
use private_claw.Subagents.Params.Strip.{strip_idem}
use private_claw.Context.Overrides.{
  Service, save, get_active_session, get_model_override, set_override, popped, clear_active_session,
  clear_model_override, load, filled,
}
use private_claw.Context.Overrides.Saved.{
  CleanEntries, lookup-IsClean, insert-CleanEntries, erase-CleanEntries, load-save,
}

-- a call of the service, or a restart of the process, which loads the file
pub data Command : Type 0 where
  set : (context_id value : String) → Command
  clear : (context_id : String) → Command
  restart : Command

-- which of the two services
pub data Kind : Type 0 where
  active_session model_override : Kind

module _ (is_space : Char → Bool) where
  abbrev pub get_of : Kind → String → Service → Option String
  get_of active_session = get_active_session is_space
  get_of model_override = get_model_override is_space

  abbrev pub clear_of : Kind → String → Service → Service
  clear_of active_session = clear_active_session is_space
  clear_of model_override = clear_model_override is_space

  unfoldable pub step : Kind → Command → Service → Service
  step kind (set context_id value) s = set_override is_space context_id value s
  step kind (clear context_id) s = clear_of kind context_id s
  step kind restart s = load is_space s.writable s.file

  unfoldable pub run : Kind → List Command → Service → Service
  unfolding step
  run kind [] s = s
  run kind (c ∷ cs) s = run kind cs (step kind c s)

  -- The specification: a map from contexts to values. A call with a blank context or value does
  -- nothing, and a restart forgets nothing.
  abbrev pub Spec : Type 0
  Spec = String → Option String

  unfoldable pub spec_step : Command → Spec → Spec
  spec_step (set context_id value) f context =
      if strip is_space context_id == "" || strip is_space value == ""
      then f context
      else if strip is_space context_id == context
      then some (strip is_space value)
      else f context
  spec_step (clear context_id) f context =
      if strip is_space context_id == ""
      then f context
      else if strip is_space context_id == context
      then none
      else f context
  spec_step restart f context = f context

  unfoldable pub spec_run : List Command → Spec → Spec
  unfolding spec_step
  spec_run [] f = f
  spec_run (c ∷ cs) f = spec_run cs (spec_step c f)

  -- a service whose saves reach its file, and that was started without a file, or has saved
  pub record IsSynced (s : Service) : Type 0 where
    pub distinct : NodupKeys s.entries
    pub clean : CleanEntries is_space s.entries
    pub writable : s.writable ≡ true
    pub synced : load is_space s.writable s.file ≡ s

  save-IsSynced :
      (d : Dict String String) (s : Service)
      → NodupKeys d
      → CleanEntries is_space d
      → s.writable ≡ true
      → IsSynced (save is_space d s)
  unfolding save
  save-IsSynced d s n h w = record {
    distinct = n;
    clean = h;
    writable = w;
    synced = load-save is_space d s n h w;
  }

  -- a step keeps the service in order, and is the step of the specification
  Refined : Kind → Command → Service → Type 0
  Refined kind c s =
      IsSynced (step kind c s)
      × ((x : String) → lookup x (step kind c s).entries ≡ spec_step c (λ y. lookup y s.entries) x)

  set-Refined :
      (kind : Kind) (context_id value : String) (s : Service)
      → IsSynced s
      → Refined kind (set context_id value) s
  unfolding Refined step set_override spec_step save
  set-Refined kind context_id value s h =
      let k = strip is_space context_id in
      let v = strip is_space value in
      elim (Bool-cases (k == "" || v == "")) [
        | inl blank ↦ rw blank (h, λ x. refl)
        | inr filled_in ↦ rw filled_in (
          save-IsSynced (insert k v s.entries) s (insert-NodupKeys k v s.entries h.distinct)
              (insert-CleanEntries is_space k v s.entries
                (strip_idem is_space context_id, ground arith)
                (strip_idem is_space value, ground arith) h.clean)
              h.writable,
          λ x. lookup-insert x k v s.entries,
        )
      ]

  erased-IsSynced :
      (k : String) (s : Service) → IsSynced s → IsSynced (save is_space (erase k s.entries) s)
  erased-IsSynced k s h =
      save-IsSynced (erase k s.entries) s (erase-NodupKeys k s.entries h.distinct)
        (erase-CleanEntries is_space k s.entries h.clean) h.writable

  popped-Refined :
      (k : String) (s : Service)
      → IsSynced s
      → IsSynced (popped is_space k (lookup k s.entries) s)
        × ((x : String)
            → lookup x (popped is_space k (lookup k s.entries) s).entries
              ≡ (if k == x then none else lookup x s.entries))
  unfolding popped save
  popped-Refined k s h = elim (Option-cases (lookup k s.entries)) [
    | inl e ↦ rw e (h, λ x. ground (arith, e))
    | inr (v, e) ↦ rw e (erased-IsSynced k s h, λ x. lookup-erase x k s.entries)
  ]

  clear-Refined :
      (kind : Kind) (context_id : String) (s : Service)
      → IsSynced s
      → Refined kind (clear context_id) s
  unfolding Refined step clear_active_session clear_model_override spec_step save
  clear-Refined active_session context_id s h =
      let k = strip is_space context_id in
      elim (Bool-cases (k == "")) [
        | inl blank ↦ rw blank (h, λ x. refl)
        | inr named ↦ rw named (popped-Refined k s h)
      ]
  clear-Refined model_override context_id s h =
      let k = strip is_space context_id in
      elim (Bool-cases (k == "")) [
        | inl blank ↦ rw blank (h, λ x. refl)
        | inr named ↦ rw named (erased-IsSynced k s h, λ x. lookup-erase x k s.entries)
      ]

  step-Refined : (kind : Kind) (c : Command) (s : Service) → IsSynced s → Refined kind c s
  unfolding Refined step spec_step
  step-Refined kind (set context_id value) s h = set-Refined kind context_id value s h
  step-Refined kind (clear context_id) s h = clear-Refined kind context_id s h
  step-Refined kind restart s h =
      (subst IsSynced (sym h.synced) h, λ x. ap (λ (s' : Service). lookup x s'.entries) h.synced)

  spec_run-cong :
      (cs : List Command) (f g : Spec) (x : String)
      → ((y : String) → f y ≡ g y)
      → spec_run cs f x ≡ spec_run cs g x
  unfolding spec_run spec_step
  spec_run-cong [] f g x e = e x
  spec_run-cong (set context_id value ∷ cs) f g x e =
      spec_run-cong cs _ _ x (λ y. ground (arith, e y))
  spec_run-cong (clear context_id ∷ cs) f g x e = spec_run-cong cs _ _ x (λ y. ground (arith, e y))
  spec_run-cong (restart ∷ cs) f g x e = spec_run-cong cs _ _ x e

  run-Refined :
      (kind : Kind) (cs : List Command) (s : Service)
      → IsSynced s
      → IsSynced (run kind cs s)
        × ((x : String)
            → lookup x (run kind cs s).entries ≡ spec_run cs (λ y. lookup y s.entries) x)
  unfolding run spec_run Refined
  run-Refined kind [] s h = (h, λ x. refl)
  run-Refined kind (c ∷ cs) s h =
      let (synced, steps) = step-Refined kind c s h in
      let (later, runs) = run-Refined kind cs (step kind c s) synced in
      (later, λ x. runs x ∙ spec_run-cong cs _ _ x steps)

  filled-lookup :
      (k : String) (s : Service)
      → IsSynced s
      → filled is_space (lookup k s.entries) ≡ lookup k s.entries
  filled-lookup k s h = elim (Option-cases (lookup k s.entries)) [
    | inl e ↦ rw e refl
    | inr (v, e) ↦
        let clean = lookup-IsClean is_space k v s.entries h.clean e in
        rw e (rw clean.0 (rw clean.1 refl))
  ]

  -- where a service looks a context up
  abbrev pub key_of : Kind → String → String
  key_of active_session context_id = context_id
  key_of model_override context_id = strip is_space context_id

  get_of-lookup :
      (kind : Kind) (context_id : String) (s : Service)
      → IsSynced s
      → get_of kind context_id s ≡ lookup (key_of kind context_id) s.entries
  unfolding get_active_session get_model_override
  get_of-lookup active_session context_id s h = filled-lookup context_id s h
  get_of-lookup model_override context_id s h = filled-lookup (strip is_space context_id) s h

  -- After any sequence of calls and restarts, a service that was in order, with a file that its saves
  -- reach, answers as the map of the specification does: active sessions under the context as it is given, model overrides under the
  -- stripped context.
  pub run-spec_run :
      (kind : Kind) (cs : List Command) (s : Service) (context_id : String)
      → IsSynced s
      → get_of kind context_id (run kind cs s)
        ≡ spec_run cs (λ x. lookup x s.entries) (key_of kind context_id)
  run-spec_run kind cs s context_id h =
      let (synced, refines) = run-Refined kind cs s h in
      get_of-lookup kind context_id (run kind cs s) synced ∙ refines (key_of kind context_id)
