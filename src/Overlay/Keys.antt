-- ===== src/Overlay/Keys.antt =====
-- What each key does.
use omarchy_hackertyper.Base.{
  ℕ, ◌+◌, ◌-◌, min, max, Bool, true, false, not, List, Text, codes, ◌&&◌, ◌||◌, [], ◌∷◌, ◌++◌,
  append-nil, ◌==◌, if◌then◌else◌, ltb, ◌≡◌, Bool-cases, inl, inr, refl, ap, ◌∙◌, arith,
}
use omarchy_hackertyper.Overlay.{
  AccessState, no_message, granted, denied, Overlay, Effect, handle_escape, hide, hide_id,
  has_message, Key, escape, KeyEvent, is_escape, is_alt, is_caps_lock, is_backspace,
  is_modifier_only, handle_key, move,
}
use omarchy_hackertyper.Progress.Steps.{advance-number, retreat-number}

-- The third press of `Alt`.
abbrev pub counts_granted : KeyEvent → Bool
counts_granted e = is_alt e.key && not e.is_auto_repeat

-- `Caps Lock`, by its name or by its scan code; `Escape` and `Alt` are read first.
abbrev pub counts_denied : KeyEvent → Bool
counts_denied e =
    not (is_escape e.key)
    && not (is_alt e.key)
    && (is_caps_lock e.key || e.native_scan_code == 66)
    && not e.is_auto_repeat

-- A key that moves through the text.
abbrev pub is_typing : KeyEvent → Bool
is_typing e =
    not (is_escape e.key)
    && not (is_alt e.key)
    && not (is_caps_lock e.key || e.native_scan_code == 66)
    && not (is_modifier_only e.key)

move_lem :
    (o : Overlay) (size : ℕ) (key : Key)
    → move o size key ≡ (
        if is_backspace key
        then min (o.progress - max 1 o.characters_per_key) size
        else if ltb 0 size
        then min (o.progress + max 1 o.characters_per_key) size
        else o.progress)
unfolding move
move_lem o size key = rw (
  advance-number o.progress o.characters_per_key size,
  retreat-number o.progress o.characters_per_key size,
)

-- The position after a key: it moves by the characters per key, at least one, within the text; a key
-- that is not `Backspace` does nothing to it while no text is loaded, and a key that does not type
-- never does.
pub handle_key-progress :
    (o : Overlay) (size : ℕ) (e : KeyEvent)
    → (handle_key o size e).overlay.progress ≡ (
        if is_typing e
        then (if is_backspace e.key
            then min (o.progress - max 1 o.characters_per_key) size
            else if ltb 0 size
            then min (o.progress + max 1 o.characters_per_key) size
            else o.progress)
        else o.progress)
unfolding handle_key
handle_key-progress o size e = ground (arith, move_lem o size e.key)

-- A sequence of key presses, which come only while the overlay is open, and what is asked meanwhile.
unfoldable pub press_open : Overlay → ℕ → List KeyEvent → Overlay × List Effect
unfolding handle_key
press_open o size [] = (o, [])
press_open o size (e ∷ es) =
    let h = handle_key o size e in
    let later = press_open h.overlay size es in
    if o.opened then (later.0, h.effects ++ later.1) else (o, [])

-- The request to hide the overlay, by its id or, without one, by the name of the plugin.
abbrev pub asked_to_hide : Overlay → List Effect
asked_to_hide o =
    if o.can_hide
    then hide (elim o.manifest_id [ [] ↦ codes "codefriendly.hackertyper" | c ∷ cs ↦ c ∷ cs ]) ∷ []
    else []

closed_presses :
    (o : Overlay) (size : ℕ) (es : List KeyEvent)
    → o.opened ≡ false
    → press_open o size es ≡ (o, [])
unfolding press_open
closed_presses o size [] h = refl
closed_presses o size (e ∷ es) h = rw (h, press_open) refl

abbrev closed : Overlay → Overlay
closed o = record o { opened = false; access_state = no_message }

abbrev silenced : Overlay → Overlay
silenced o = record o { access_state = no_message }

-- What one `Escape` leads to.
abbrev pub after_escape : Overlay → Overlay × List Effect
after_escape o = elim o.access_state [
  | no_message ↦ (closed o, asked_to_hide o)
  | granted ↦ (silenced o, [])
  | denied ↦ (silenced o, [])
]

asked_lem :
    (id : Text) → hide_id id ≡ elim id [ [] ↦ codes "codefriendly.hackertyper" | c ∷ cs ↦ c ∷ cs ]
asked_lem [] = refl
asked_lem (c ∷ cs) = refl

handle_key-after_escape :
    (o : Overlay) (size : ℕ) (e : KeyEvent)
    → e.key ≡ escape
    → ((handle_key o size e).overlay, (handle_key o size e).effects) ≡ after_escape o
unfolding handle_key
handle_key-after_escape o size e k = rw k (go o.access_state refl)
  where
    go :
        (a : AccessState)
        → o.access_state ≡ a
        → ◌≡◌ {A = Overlay × List Effect} (handle_escape o) (after_escape o)
    go no_message h = rw (h, ← asked_lem o.manifest_id) refl
    go granted h = rw h refl
    go denied h = rw h refl

abbrev then_presses : ℕ → List KeyEvent → Overlay × List Effect → Overlay × List Effect
then_presses size es (o, effects) = ((press_open o size es).0, effects ++ (press_open o size es).1)

press_open_step :
    (o : Overlay) (size : ℕ) (e : KeyEvent) (es : List KeyEvent)
    → press_open o size (e ∷ es) ≡ (
        if o.opened
        then then_presses size es ((handle_key o size e).overlay, (handle_key o size e).effects)
        else (o, []))
unfolding press_open
press_open_step o size e es = refl

press_open-escape :
    (o : Overlay) (size : ℕ) (e : KeyEvent) (es : List KeyEvent)
    → o.opened ≡ true
    → e.key ≡ escape
    → press_open o size (e ∷ es) ≡ then_presses size es (after_escape o)
press_open-escape o size e es h k =
    press_open_step o size e es
    ∙ ap
        (λ b.
          if b
          then then_presses size es ((handle_key o size e).overlay, (handle_key o size e).effects)
          else (o, []))
        h
    ∙ ap (then_presses size es) (handle_key-after_escape o size e k)

press_open-no_message :
    (o : Overlay) (size : ℕ) (e : KeyEvent) (es : List KeyEvent)
    → o.opened ≡ true
    → e.key ≡ escape
    → o.access_state ≡ no_message
    → press_open o size (e ∷ es) ≡ (closed o, asked_to_hide o)
press_open-no_message o size e es h k a =
    press_open-escape o size e es h k
    ∙ rw (a, closed_presses (closed o) size es refl, append-nil (asked_to_hide o)) refl

press_open-message :
    (o : Overlay) (size : ℕ) (e : KeyEvent) (es : List KeyEvent)
    → o.opened ≡ true
    → e.key ≡ escape
    → has_message o.access_state ≡ true
    → press_open o size (e ∷ es) ≡ press_open (silenced o) size es
press_open-message o size e es h k m = press_open-escape o size e es h k ∙ go o.access_state refl m
  where
    go :
        (a : AccessState)
        → o.access_state ≡ a
        → has_message a ≡ true
        → then_presses size es (after_escape o) ≡ press_open (silenced o) size es
    go no_message q t = cc
    go granted q t = rw q refl
    go denied q t = rw q refl

-- While the overlay is open, one `Escape` takes away a message and changes nothing else, and two lead
-- out of it, whatever it shows and whatever is pressed after them: the overlay is closed without a
-- message, all else of its state is as before the first, and the shell was asked to hide it exactly
-- once, if there is a shell to ask, by its id or the name of the plugin.
pub press_open_escapes :
    (o : Overlay) (size : ℕ) (e f : KeyEvent) (es : List KeyEvent)
    → o.opened ≡ true
    → e.key ≡ escape
    → f.key ≡ escape
    → (press_open o size (e ∷ []) ≡ (
        if has_message o.access_state
        then (record o { access_state = no_message }, [])
        else (record o { opened = false; access_state = no_message }, asked_to_hide o)))
      × (press_open o size (e ∷ f ∷ es)
          ≡ (record o { opened = false; access_state = no_message }, asked_to_hide o))
press_open_escapes o size e f es h k l = elim (Bool-cases (has_message o.access_state)) [
  | inl m ↦ rw m (
    press_open-message o size e [] h k m ∙ unfold press_open in refl,
    press_open-message o size e (f ∷ es) h k m
        ∙ press_open-no_message (silenced o) size f es h l refl,
  )
  | inr m ↦
      let quiet = no_message_lem o.access_state m in
      rw m (
        press_open-no_message o size e [] h k quiet,
        press_open-no_message o size e (f ∷ es) h k quiet,
      )
]
  where
    no_message_lem : (a : AccessState) → has_message a ≡ false → a ≡ no_message
    no_message_lem no_message q = refl
    no_message_lem granted q = cc
    no_message_lem denied q = cc

-- Every key is taken, whatever it does.
pub handle_key_accepted :
    (o : Overlay) (size : ℕ) (e : KeyEvent) → (handle_key o size e).accepted ≡ true
unfolding handle_key
handle_key_accepted o size e = ground arith
