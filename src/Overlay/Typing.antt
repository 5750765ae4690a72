-- ===== src/Overlay/Typing.antt =====
-- Typing and rewinding: the text that a sequence of keys reveals.
use omarchy_hackertyper.Base.{
  ℕ, ◌+◌, ◌-◌, ◌*◌, ◌≤◌, min, max, Bool, true, not, ◌&&◌, List, [], ◌∷◌, all, length, take,
  take_all, Text, ◌≡◌, refl, ◌∙◌, arith,
}
use omarchy_hackertyper.Overlay.Access.{press_all}
use omarchy_hackertyper.Overlay.Keys.{is_typing, handle_key-progress}
use omarchy_hackertyper.Overlay.{Overlay, KeyEvent, is_backspace, handle_key}

abbrev pub types_forward : KeyEvent → Bool
types_forward e = is_typing e && not (is_backspace e.key)

abbrev pub rewinds : KeyEvent → Bool
rewinds e = is_typing e && is_backspace e.key

-- The characters per key, at least one.
abbrev pub stride : Overlay → ℕ
stride o = max 1 o.characters_per_key

pub handle_key-characters_per_key :
    (o : Overlay) (size : ℕ) (e : KeyEvent)
    → (handle_key o size e).overlay.characters_per_key ≡ o.characters_per_key
unfolding handle_key
handle_key-characters_per_key o size e = ground arith

-- From a position in the text, every key that types reveals the characters per key, at least one,
-- up to the end of the text.
pub press_all-types_forward :
    (o : Overlay) (size : ℕ) (es : List KeyEvent)
    → o.progress ≤ size
    → all types_forward es ≡ true
    → (press_all o size es).progress ≡ min (o.progress + length es * stride o) size
unfolding press_all
press_all-types_forward o size [] h q = omega arith
press_all-types_forward o size (e ∷ es) h q =
    let o' = (handle_key o size e).overlay in
    let step : o'.progress ≡ min (o.progress + stride o) size =
      ground (arith, handle_key-progress o size e) in
    let same : stride o' ≡ stride o = ground (arith, handle_key-characters_per_key o size e) in
    let rest : (press_all o' size es).progress ≡ min (o'.progress + length es * stride o') size =
      press_all-types_forward o' size es (omega arith) (ground arith) in
    rest ∙ rw (step, same) (grind arith)

-- Enough keys reveal the whole text: where the position and the keys times the characters per key,
-- at least one, reach the end of the text, the whole text is typed, whatever keys they are.
pub press_all_reveals :
    (o : Overlay) (text : Text) (es : List KeyEvent)
    → o.progress ≤ length text
    → all types_forward es ≡ true
    → length text ≤ o.progress + length es * stride o
    → take (press_all o (length text) es).progress text ≡ text
press_all_reveals o text es h q enough =
    take_all (press_all o (length text) es).progress text
      (omega (arith, press_all-types_forward o (length text) es h q))

-- `Backspace` rewinds by the characters per key, at least one, down to the start of the text.
pub press_all-rewinds :
    (o : Overlay) (size : ℕ) (es : List KeyEvent)
    → o.progress ≤ size
    → all rewinds es ≡ true
    → (press_all o size es).progress ≡ o.progress - length es * stride o
unfolding press_all
press_all-rewinds o size [] h q = omega arith
press_all-rewinds o size (e ∷ es) h q =
    let o' = (handle_key o size e).overlay in
    let step : o'.progress ≡ min (o.progress - stride o) size =
      ground (arith, handle_key-progress o size e) in
    let same : stride o' ≡ stride o = ground (arith, handle_key-characters_per_key o size e) in
    let rest : (press_all o' size es).progress ≡ o'.progress - length es * stride o' =
      press_all-rewinds o' size es (omega arith) (ground arith) in
    rest ∙ rw (step, same) (grind arith)

pub press_all-characters_per_key :
    (o : Overlay) (size : ℕ) (es : List KeyEvent)
    → (press_all o size es).characters_per_key ≡ o.characters_per_key
unfolding press_all
press_all-characters_per_key o size [] = refl
press_all-characters_per_key o size (e ∷ es) =
    press_all-characters_per_key (handle_key o size e).overlay size es
    ∙ handle_key-characters_per_key o size e

-- Rewinding undoes typing: where the keys did not reach past the end of the text, as many presses of
-- `Backspace` lead back to the same position.
pub press_all_undone :
    (o : Overlay) (size : ℕ) (es bs : List KeyEvent)
    → all types_forward es ≡ true
    → all rewinds bs ≡ true
    → length es ≡ length bs
    → o.progress + length es * stride o ≤ size
    → (press_all (press_all o size es) size bs).progress ≡ o.progress
press_all_undone o size es bs f r same fits =
    let o' = press_all o size es in
    let there : o'.progress ≡ min (o.progress + length es * stride o) size =
      press_all-types_forward o size es (omega arith) f in
    let stays : stride o' ≡ stride o = ground (arith, press_all-characters_per_key o size es) in
    let back : (press_all o' size bs).progress ≡ o'.progress - length bs * stride o' =
      press_all-rewinds o' size bs (omega arith) r in
    back ∙ rw (there, stays, ← same) (omega arith)
