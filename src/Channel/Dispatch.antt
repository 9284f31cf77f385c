-- ===== src/Channel/Dispatch.antt =====
-- Which callbacks `handleEvent` runs, and in which order.
use muduo_learning.Prelude.{
  ◌≡◌, ℕ, Bool, not, ◌&&◌, List, [], ◌∷◌, Option, Outcome, ok, ◌>>=◌, if◌then◌else◌, bit_or, arith,
  ap, sym, ◌∙◌, fun_ext, >>=-ok, Bool-cases, inl, inr,
}
use muduo_learning.Channel.{
  Channel, Callbacks, invoke, handle_event_with_guard, handle_event, test, epollin, epollpri,
  epollout, epollerr, epollhup,
}

pub data Kind : Type 0 where
  closes errs reads writes : Kind

-- The bits that call for each callback.
abbrev pub wanted : ℕ → Kind → Bool
wanted r closes = test r epollhup && not (test r epollin)
wanted r errs = test r epollerr
wanted r reads = test r (bit_or epollin epollpri)
wanted r writes = test r epollout

-- The callbacks that the bits call for, of a list in order.
abbrev pub select : ℕ → List Kind → List Kind
select r [] = []
select r (k ∷ ks) = if wanted r k then k ∷ select r ks else select r ks

abbrev pub plan : ℕ → List Kind
plan r = select r (closes ∷ errs ∷ reads ∷ writes ∷ [])

module _ {S : Type 0} where
  abbrev pub callback : Callbacks S → Kind → Option (S → Outcome S)
  callback cbs closes = cbs.close
  callback cbs errs = cbs.error
  callback cbs reads = cbs.read
  callback cbs writes = cbs.write

  -- The callbacks of a list one after another; one that ends the process ends the run.
  abbrev pub run : Callbacks S → List Kind → S → Outcome S
  run cbs [] s = ok s
  run cbs (k ∷ ks) s = invoke (callback cbs k) s >>= run cbs ks

  -- The guarded call of one callback.
  abbrev guarded : Callbacks S → ℕ → Kind → S → Outcome S
  guarded cbs r k s = if wanted r k then invoke (callback cbs k) s else ok s

  run-select :
      (cbs : Callbacks S) (r : ℕ) (k : Kind) (ks : List Kind)
      → (λ s. guarded cbs r k s >>= run cbs (select r ks)) ≡ run cbs (select r (k ∷ ks))
  run-select cbs r k ks =
      fun_ext λ s. elim (Bool-cases (wanted r k)) [ inl e ↦ rw e | inr e ↦ rw e ]

  handle_event_with_guard-plan :
      (cbs : Callbacks S) (r : ℕ) (s : S) → handle_event_with_guard cbs r s ≡ run cbs (plan r) s
  unfolding handle_event_with_guard
  handle_event_with_guard-plan cbs r s =
      ap
        (λ f.
          guarded cbs r closes s >>= λ s. guarded cbs r errs s >>= λ s. guarded cbs r reads s >>= f)
        (sym (fun_ext λ s. >>=-ok (guarded cbs r writes s)) ∙ run-select cbs r writes [])
      ∙ ap (λ f. guarded cbs r closes s >>= λ s. guarded cbs r errs s >>= f)
          (run-select cbs r reads (writes ∷ []))
      ∙ ap (λ f. guarded cbs r closes s >>= f) (run-select cbs r errs (reads ∷ writes ∷ []))
      ∙ ap (λ f. f s) (run-select cbs r closes (errs ∷ reads ∷ writes ∷ []))

  -- `handleEvent` runs, in this order, close, error, read and write, each at most once and exactly
  -- those that `revents_` call for, up to the first that ends the process; on a tied channel whose
  -- owner is gone it runs none.
  pub handle_event-plan :
      (cbs : Callbacks S) (c : Channel) (alive : Bool) (s : S)
      → handle_event cbs c alive s
        ≡ (if c.tied && not alive then ok s else run cbs (plan c.revents) s)
  unfolding handle_event
  handle_event-plan cbs c alive s = ground (arith, handle_event_with_guard-plan cbs c.revents s)
