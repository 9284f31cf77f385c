-- ===== src/Channel/Masks.antt =====
-- The interest of a channel is one of four masks, on which the operations act as on two flags.
use muduo_learning.Prelude.{ℕ, ◌≡◌, refl, Bool, true, false, not, List, [], ◌∷◌, ◌||◌}
use muduo_learning.Channel.{
  Channel, none_event, with_reading, without_reading, with_writing, without_writing, is_none_event,
  is_writing, is_reading,
}

-- The masks that the five operations reach: nothing, reading, writing, both.
pub data Interest : Type 0 where
  interest : Bool → Bool → Interest

abbrev pub mask : Interest → ℕ
mask (interest false false) = 0
mask (interest true false) = 3
mask (interest false true) = 4
mask (interest true true) = 7

abbrev pub reads : Interest → Bool
reads (interest r w) = r

abbrev pub writes : Interest → Bool
writes (interest r w) = w

-- Each of the four operations sets its flag and leaves the other.
pub with_reading-mask : (i : Interest) → with_reading (mask i) ≡ mask (interest true (writes i))
unfolding with_reading
with_reading-mask (interest false false) = refl
with_reading-mask (interest true false) = refl
with_reading-mask (interest false true) = refl
with_reading-mask (interest true true) = refl

pub without_reading-mask :
    (i : Interest) → without_reading (mask i) ≡ mask (interest false (writes i))
unfolding without_reading
without_reading-mask (interest false false) = refl
without_reading-mask (interest true false) = refl
without_reading-mask (interest false true) = refl
without_reading-mask (interest true true) = refl

pub with_writing-mask : (i : Interest) → with_writing (mask i) ≡ mask (interest (reads i) true)
unfolding with_writing
with_writing-mask (interest false false) = refl
with_writing-mask (interest true false) = refl
with_writing-mask (interest false true) = refl
with_writing-mask (interest true true) = refl

pub without_writing-mask :
    (i : Interest) → without_writing (mask i) ≡ mask (interest (reads i) false)
unfolding without_writing
without_writing-mask (interest false false) = refl
without_writing-mask (interest true false) = refl
without_writing-mask (interest false true) = refl
without_writing-mask (interest true true) = refl

-- The queries read the flags.
pub queries :
    (i : Interest) (c : Channel)
    → c.events ≡ mask i
    → (is_reading c ≡ reads i)
      × (is_writing c ≡ writes i)
      × (is_none_event c ≡ not (reads i || writes i))
unfolding is_reading is_writing is_none_event
queries (interest false false) c e = rw e (refl, refl, refl)
queries (interest true false) c e = rw e (refl, refl, refl)
queries (interest false true) c e = rw e (refl, refl, refl)
queries (interest true true) c e = rw e (refl, refl, refl)

-- The four operations as changes of `events_`.
pub data Change : Type 0 where
  enables_reading disables_reading enables_writing disables_writing disables_all : Change

unfoldable pub change : Change → ℕ → ℕ
change enables_reading e = with_reading e
change disables_reading e = without_reading e
change enables_writing e = with_writing e
change disables_writing e = without_writing e
change disables_all e = none_event

-- The same on the pair of flags.
abbrev pub flags : Change → Interest → Interest
flags enables_reading i = interest true (writes i)
flags disables_reading i = interest false (writes i)
flags enables_writing i = interest (reads i) true
flags disables_writing i = interest (reads i) false
flags disables_all i = interest false false

unfoldable pub changes : List Change → ℕ → ℕ
changes [] e = e
changes (c ∷ cs) e = changes cs (change c e)

abbrev pub flags_after : List Change → Interest → Interest
flags_after [] i = i
flags_after (c ∷ cs) i = flags_after cs (flags c i)

-- After any sequence of the five enable and disable operations on a mask of two flags, `events_`
-- is the mask of the flags that the sequence leaves.
pub changes-mask :
    (cs : List Change) (i : Interest) {e : ℕ} → e ≡ mask i → changes cs e ≡ mask (flags_after cs i)
unfolding changes change
changes-mask [] i h = h
changes-mask (enables_reading ∷ cs) i h =
    changes-mask cs (interest true (writes i)) (rw h (with_reading-mask i))
changes-mask (disables_reading ∷ cs) i h =
    changes-mask cs (interest false (writes i)) (rw h (without_reading-mask i))
changes-mask (enables_writing ∷ cs) i h =
    changes-mask cs (interest (reads i) true) (rw h (with_writing-mask i))
changes-mask (disables_writing ∷ cs) i h =
    changes-mask cs (interest (reads i) false) (rw h (without_writing-mask i))
changes-mask (disables_all ∷ cs) i h = changes-mask cs (interest false false) refl
