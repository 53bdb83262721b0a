-- ===== src/Pty/Editor/History.antt =====
-- Walking the history with the arrow keys.
use zabawheels.Prelude.{
  ℕ, zero, suc, ◌+◌, ◌-◌, ◌≤◌, ◌<◌, ◌≡◌, refl, sym, subst, ◌∙◌, ap, false, true, Option, none, some,
  List, [], ◌∷◌, ◌++◌, arith, Text, length, get_or, leb, lt→not_leb, le→leb, encode, codes,
}
use native.Mathlib.Nat.{add-zero}
use zabawheels.Pty.Terminal.{Terminal}
use zabawheels.Pty.Terminal.Fields.{emit-SameInput}
use zabawheels.Pty.Editor.{
  is_empty, Direction, back, forward, moved, replace_line, step_from, step_at, history_step,
}

-- The fields that the history moves through.
pub record Looks (t : Terminal) (history : List Text) (index : Option ℕ) (stash line : Text)
    : Type 0 where
  pub idle : t.busy ≡ false
  pub history_is : t.history ≡ history
  pub index_is : t.history_index ≡ index
  pub stash_is : t.history_stash ≡ stash
  pub line_is : t.line_buffer ≡ line

replace_line-Looks :
    (text : Text) {t : Terminal} {h : List Text} {i : Option ℕ} {stash line : Text}
    → Looks t h i stash line
    → Looks (replace_line text t) h i stash text
unfolding replace_line
replace_line-Looks text {t} l =
    let s =
      emit-SameInput (13 ∷ 0x1b ∷ codes "[K" ++ encode text) (record t { line_buffer = text }) in
    record {
      idle = s.busy ∙ l.idle;
      history_is = s.history ∙ l.history_is;
      index_is = s.history_index ∙ l.index_is;
      stash_is = s.history_stash ∙ l.stash_is;
      line_is = s.line_buffer;
    }

-- A line by another name.
Looks-line :
    {t : Terminal} {h : List Text} {i : Option ℕ} {stash line line' : Text}
    → line ≡ line'
    → Looks t h i stash line
    → Looks t h i stash line'
Looks-line e l = record {
  idle = l.idle;
  history_is = l.history_is;
  index_is = l.index_is;
  stash_is = l.stash_is;
  line_is = l.line_is ∙ e;
}

-- Inside the history, the item at the new index is in the line.
step_from-inside :
    (j : ℕ) (d : Direction) {t : Terminal} {h : List Text} {i : Option ℕ} {stash line : Text}
    → moved d j < length h
    → Looks t h i stash line
    → Looks (step_from j d t) h (some (moved d j)) stash (get_or h (moved d j) [])
unfolding step_from
step_from-inside j d {t} {h} {i} {stash} {line} below l =
    let n = moved d j in
    let inside : leb (length t.history) n ≡ false =
      ap (λ z. leb (length z) n) l.history_is ∙ lt→not_leb (length h) n below in
    let u = record t { history_index = some n } in
    let moved_look : Looks u h (some n) stash line = record {
      idle = l.idle;
      history_is = l.history_is;
      index_is = refl;
      stash_is = l.stash_is;
      line_is = l.line_is;
    } in
    simp inside (
      Looks-line (ap (λ z. get_or z n []) l.history_is)
        (replace_line-Looks (get_or t.history n []) moved_look))

-- Past its end, the stashed line comes back.
step_from-past :
    (j : ℕ) (d : Direction) {t : Terminal} {h : List Text} {i : Option ℕ} {stash line : Text}
    → length h ≤ moved d j
    → Looks t h i stash line
    → Looks (step_from j d t) h none stash stash
unfolding step_from
step_from-past j d {t} {h} {i} {stash} {line} above l =
    let n = moved d j in
    let past : leb (length t.history) n ≡ true =
      ap (λ z. leb (length z) n) l.history_is ∙ le→leb (length h) n above in
    let u = record t { history_index = none } in
    let moved_look : Looks u h none stash line = record {
      idle = l.idle;
      history_is = l.history_is;
      index_is = refl;
      stash_is = l.stash_is;
      line_is = l.line_is;
    } in
    simp past (Looks-line l.stash_is (replace_line-Looks t.history_stash moved_look))

not_empty : (h : List Text) → 0 < length h → is_empty h ≡ false
not_empty [] p = absurd (omega arith)
not_empty (x ∷ h) p = refl

-- A step of an idle session with a history is the step from its index.
history_step-step_at :
    (d : Direction) {t : Terminal} {h : List Text} {i : Option ℕ} {stash line : Text}
    → 0 < length h
    → Looks t h i stash line
    → history_step d t ≡ step_at i d t
unfolding history_step
history_step-step_at d {t} {h} {i} some_history l =
    let items : is_empty t.history ≡ false = ap is_empty l.history_is ∙ not_empty h some_history in
    simp (l.idle, items, l.index_is)

history_step-inside :
    (j : ℕ) (d : Direction) {t : Terminal} {h : List Text} {stash line : Text}
    → moved d j < length h
    → Looks t h (some j) stash line
    → Looks (history_step d t) h (some (moved d j)) stash (get_or h (moved d j) [])
unfolding step_at
history_step-inside j d {t} {h} {stash} below l =
    subst (λ u. Looks u h (some (moved d j)) stash (get_or h (moved d j) []))
      (sym (history_step-step_at d (omega arith) l)) (step_from-inside j d below l)

history_step-past :
    (j : ℕ) (d : Direction) {t : Terminal} {h : List Text} {stash line : Text}
    → 0 < length h
    → length h ≤ moved d j
    → Looks t h (some j) stash line
    → Looks (history_step d t) h none stash stash
unfolding step_at
history_step-past j d {t} {h} {stash} some_history above l =
    subst (λ u. Looks u h none stash stash) (sym (history_step-step_at d some_history l))
      (step_from-past j d above l)

step_at-first :
    (t : Terminal)
    → step_at none back t
      ≡ step_from (length t.history) back (record t { history_stash = t.line_buffer })
unfolding step_at
step_at-first t = refl

-- The first step back stashes the line that is being typed.
history_step-first :
    {t : Terminal} {h : List Text} {stash line : Text}
    → 0 < length h
    → Looks t h none stash line
    → Looks (history_step back t) h (some (length h - 1)) line (get_or h (length h - 1) [])
history_step-first {t} {h} {stash} {line} some_history l =
    let u = record t { history_stash = t.line_buffer } in
    let size = ap (λ (z : List Text). step_from (length z) back u) l.history_is in
    let stashed : Looks u h none line line = record {
      idle = l.idle;
      history_is = l.history_is;
      index_is = l.index_is;
      stash_is = l.line_is;
      line_is = l.line_is;
    } in
    subst (λ u. Looks u h (some (length h - 1)) line (get_or h (length h - 1) []))
      (sym (history_step-step_at back some_history l ∙ step_at-first t ∙ size))
      (step_from-inside (length h) back (omega arith) stashed)

-- `n` presses of one arrow key.
abbrev pub presses : ℕ → Direction → Terminal → Terminal
presses zero d t = t
presses (suc n) d t = history_step d (presses n d t)

-- A session at its prompt: nothing runs, and the history is not being walked.
pub record IsAtPrompt (t : Terminal) : Type 0 where
  pub idle : t.busy ≡ false
  pub unwalked : t.history_index ≡ none
  pub some_history : 0 < length t.history

presses-back :
    (k : ℕ) {t : Terminal}
    → IsAtPrompt t
    → Looks
        (presses (suc k) back t)
        t.history
        (some (length t.history - suc k))
        t.line_buffer
        (get_or t.history (length t.history - suc k) [])
presses-back zero {t} p = history_step-first p.some_history (record {
  idle = p.idle;
  history_is = refl;
  index_is = p.unwalked;
  stash_is = refl;
  line_is = refl;
})
presses-back (suc k) {t} p =
    let h = t.history in
    let some_history = p.some_history in
    let n : length h - suc k - 1 ≡ length h - suc (suc k) = omega arith in
    rw (← n) (history_step-inside (length h - suc k) back (omega arith) (presses-back k p))

-- Pressing Up k + 1 times at a prompt puts the (k + 1)-last line of the history into the line, or the
-- oldest line when there are not that many.
pub line_buffer-presses_back :
    (k : ℕ) {t : Terminal}
    → IsAtPrompt t
    → (presses (suc k) back t).line_buffer ≡ get_or t.history (length t.history - suc k) []
line_buffer-presses_back k p = (presses-back k p).line_is

presses-forward :
    (m k : ℕ) {t : Terminal}
    → m ≤ k
    → k < length t.history
    → IsAtPrompt t
    → (line : Text) × Looks
        (presses m forward (presses (suc k) back t))
        t.history
        (some (length t.history - suc k + m))
        t.line_buffer
        line
presses-forward zero k {t} below inside p =
    (get_or t.history (length t.history - suc k) [], rw add-zero (presses-back k p))
presses-forward (suc m) k {t} below inside p =
    let h = t.history in
    let j = length h - suc k + m in
    let (line, before) = presses-forward m k (omega arith) inside p in
    let n : j + 1 ≡ length h - suc k + suc m = omega arith in
    (get_or h (j + 1) [], rw (← n) (history_step-inside j forward (omega arith) before))

-- As many presses of Down bring the line that was being typed back, and end the walk: at a prompt,
-- k + 1 times Up and k + 1 times Down leave the typed line and the history as they were, if the
-- history has that many lines.
pub presses-back_forward :
    (k : ℕ) {t : Terminal}
    → IsAtPrompt t
    → k < length t.history
    → ((presses (suc k) forward (presses (suc k) back t)).line_buffer ≡ t.line_buffer)
      × ((presses (suc k) forward (presses (suc k) back t)).history ≡ t.history)
      × ((presses (suc k) forward (presses (suc k) back t)).history_index ≡ none)
presses-back_forward k {t} p inside =
    let h = t.history in
    let (line, before) = presses-forward k k (omega arith) inside p in
    let after =
      history_step-past (length h - suc k + k) forward p.some_history (omega arith) before in
    (after.line_is, after.history_is, after.index_is)
