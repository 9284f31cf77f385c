-- ===== src/Loop/Beside.antt =====
-- A loop as it is seen by one of its channels while another one is watched: the same operations, and
-- books that agree with both.
use muduo_learning.Prelude.{◌≢◌, ◌∙◌, Returns-map, Returns-both}
use muduo_learning.Channel.{Channel}
use muduo_learning.Loop.{Loop}

module _ (l : Loop) (other : Channel) where
  abbrev pub Both : Channel → l.State → Type 0
  Both c s = l.Tracked c s × (other.fd ≢ c.fd) × l.Tracked other s

  abbrev pub beside : Loop
  beside = record {
    State = l.State;
    update_channel = l.update_channel;
    remove_channel = l.remove_channel;
    Tracked = Both;
    tie_tracked = λ c s t. (l.tie_tracked c s t.0, t.1, t.2);
    revents_tracked = λ c r s t. (l.revents_tracked c r s t.0, t.1, t.2);
    update_tracked = λ c e s t.
        Returns-map (l.update_channel (record c { events = e }) s) _ _
          (Returns-both (l.update_channel (record c { events = e }) s) _ _
            (l.update_tracked c e s t.0) (l.update_apart c other e s t.0 t.1 t.2))
          (λ r u. (u.0.0, (u.0.1, λ same. t.1 (same ∙ u.0.0.same_fd), u.1)));
    remove_tracked = λ c s t.
        Returns-map (l.remove_channel c s) _ _
          (Returns-both (l.remove_channel c s) _ _ (l.remove_tracked c s t.0)
            (l.remove_apart c other s t.0 t.1 t.2))
          (λ r u. (u.0.0, u.0.1, (u.0.2, λ same. t.1 (same ∙ u.0.0.same_fd), u.1)));
    update_apart = λ c d e s t ne k.
        Returns-map (l.update_channel (record c { events = e }) s) _ _
          (Returns-both (l.update_channel (record c { events = e }) s) _ _
            (l.update_apart c d e s t.0 ne k.0) (l.update_apart c other e s t.0 t.1 t.2))
          (λ r u. (u.0, k.1, u.1));
    remove_apart = λ c d s t ne k.
        Returns-map (l.remove_channel c s) _ _
          (Returns-both (l.remove_channel c s) _ _ (l.remove_apart c d s t.0 ne k.0)
            (l.remove_apart c other s t.0 t.1 t.2))
          (λ r u. (u.0, k.1, u.1));
  }
