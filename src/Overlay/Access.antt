-- ===== src/Overlay/Access.antt =====
-- The two messages: how often their keys have to be pressed.
use omarchy_hackertyper.Base.{
  ℕ, ◌+◌, ◌%◌, ◌<◌, Bool, true, not, ◌&&◌, List, [], ◌∷◌, if◌then◌else◌, leb, all, ◌≡◌, arith,
}
use omarchy_hackertyper.Overlay.Keys.{counts_granted, counts_denied}
use omarchy_hackertyper.Overlay.{
  AccessState, no_message, granted, denied, Overlay, KeyEvent, is_escape, handle_key,
}

-- A sequence of key presses while a text of this length is loaded.
unfoldable pub press_all : Overlay → ℕ → List KeyEvent → Overlay
press_all o size [] = o
press_all o size (e ∷ es) = press_all (handle_key o size e).overlay size es

-- How many of them count for a message.
abbrev pub presses : (KeyEvent → Bool) → List KeyEvent → ℕ
presses counts [] = 0
presses counts (e ∷ es) = (if counts e then 1 else 0) + presses counts es

abbrev next_count : ℕ → Bool → ℕ
next_count c counted = if counted then (if leb 3 (c + 1) then 0 else c + 1) else c

pub handle_key-access_count :
    (o : Overlay) (size : ℕ) (e : KeyEvent)
    → (handle_key o size e).overlay.access_count ≡ next_count o.access_count (counts_granted e)
unfolding handle_key
handle_key-access_count o size e = ground arith

pub handle_key-denied_count :
    (o : Overlay) (size : ℕ) (e : KeyEvent)
    → (handle_key o size e).overlay.denied_count ≡ next_count o.denied_count (counts_denied e)
unfolding handle_key
handle_key-denied_count o size e = ground arith

-- The message after a key.
abbrev next_state : Overlay → KeyEvent → AccessState
next_state o e =
    if is_escape e.key
    then no_message
    else if counts_granted e && leb 2 o.access_count
    then granted
    else if counts_denied e && leb 2 o.denied_count
    then denied
    else o.access_state

pub handle_key-access_state :
    (o : Overlay) (size : ℕ) (e : KeyEvent)
    → (handle_key o size e).overlay.access_state ≡ next_state o e
unfolding handle_key
handle_key-access_state o size e = ground arith

-- Any sequence of keys leaves the count of `Alt` at the number of its presses so far, modulo 3: other
-- keys in between change nothing, nor do repeats of a key held down.
pub press_all-access_count :
    (o : Overlay) (size : ℕ) (es : List KeyEvent)
    → o.access_count < 3
    → (press_all o size es).access_count ≡ (o.access_count + presses counts_granted es) % 3
unfolding press_all
press_all-access_count o size [] h = omega arith
press_all-access_count o size (e ∷ es) h =
    let c = handle_key-access_count o size e in
    ground (arith, c, press_all-access_count (handle_key o size e).overlay size es)

-- The same of `Caps Lock`.
pub press_all-denied_count :
    (o : Overlay) (size : ℕ) (es : List KeyEvent)
    → o.denied_count < 3
    → (press_all o size es).denied_count ≡ (o.denied_count + presses counts_denied es) % 3
unfolding press_all
press_all-denied_count o size [] h = omega arith
press_all-denied_count o size (e ∷ es) h =
    let c = handle_key-denied_count o size e in
    ground (arith, c, press_all-denied_count (handle_key o size e).overlay size es)

-- Neither `Escape` nor a press that counts for the other message.
abbrev pub is_quiet : (KeyEvent → Bool) → KeyEvent → Bool
is_quiet others e = not (is_escape e.key) && not (others e)

-- Among keys that are neither `Escape` nor a counted press of `Caps Lock`, the third press of `Alt`
-- grants access, and the message stays; with fewer presses the message is as before.
pub press_all-granted :
    (o : Overlay) (size : ℕ) (es : List KeyEvent)
    → o.access_count < 3
    → all (is_quiet counts_denied) es ≡ true
    → (press_all o size es).access_state
      ≡ (if leb 3 (o.access_count + presses counts_granted es) then granted else o.access_state)
unfolding press_all
press_all-granted o size [] h q = ground arith
press_all-granted o size (e ∷ es) h q =
    let o' = (handle_key o size e).overlay in
    ground (
      arith,
      handle_key-access_count o size e,
      handle_key-access_state o size e,
      press_all-granted o' size es,
    )

-- Among keys that are neither `Escape` nor a counted press of `Alt`, the third press of `Caps Lock`
-- denies access, and the message stays; with fewer presses the message is as before.
pub press_all-denied :
    (o : Overlay) (size : ℕ) (es : List KeyEvent)
    → o.denied_count < 3
    → all (is_quiet counts_granted) es ≡ true
    → (press_all o size es).access_state
      ≡ (if leb 3 (o.denied_count + presses counts_denied es) then denied else o.access_state)
unfolding press_all
press_all-denied o size [] h q = ground arith
press_all-denied o size (e ∷ es) h q =
    let o' = (handle_key o size e).overlay in
    ground (
      arith,
      handle_key-denied_count o size e,
      handle_key-access_state o size e,
      press_all-denied o' size es,
    )
