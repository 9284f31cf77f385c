-- ===== src/Channel/Tests.antt =====
-- The theorems on channels at work.
use muduo_learning.Prelude.{
  ℕ, ◌≡◌, true, not, ◌&&◌, if◌then◌else◌, List, [], ◌∷◌, ◌++◌, some, none, ok,
}
use muduo_learning.Channel
use muduo_learning.Channel.{Channel, Callbacks, handle_event, tie}
use muduo_learning.Channel.Dispatch.{plan, run, handle_event-plan}

-- Each callback but `error`, which is not set, notes that it ran.
abbrev noted : Callbacks (List ℕ)
noted = record {
  read = some (λ s. ok (s ++ 1 ∷ []));
  write = some (λ s. ok (s ++ 2 ∷ []));
  close = some (λ s. ok (s ++ 3 ∷ []));
  error = none;
}

-- Readable and writable, with an error.
abbrev busy : Channel
busy = record (Channel.init 100 7) { revents = 13; tied = true }

handle_event-plan_example :
    handle_event noted busy true []
    ≡ (if busy.tied && not true then ok [] else run noted (plan busy.revents) [])
handle_event-plan_example = handle_event-plan noted busy true []
