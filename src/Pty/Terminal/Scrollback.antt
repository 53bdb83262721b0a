-- ===== src/Pty/Terminal/Scrollback.antt =====
-- What the scrollback holds: the end of all that the session has shown.
use zabawheels.Prelude.{
  ℕ, zero, suc, ◌-◌, ◌≤◌, ◌≡◌, refl, sym, ◌∙◌, List, [], ◌∷◌, ◌++◌, append-nil, append_assoc, arith,
  Bytes, length, length-drop, take_last, take_last-append, if-elim,
}
use zabawheels.Pty.Control.{storage_setup_osc, filter_pty_controls}
use zabawheels.Pty.Terminal.{
  Effect, output, storage_worker, Terminal, act, scrollback_max_size, show_bytes,
  request_storage_setup, request_times, emit, fresh_line, emit_prompt, emit_setup_prompt,
}

-- All bytes handed to the screen, in order.
unfoldable pub shown : List Effect → Bytes
shown [] = []
shown (output bytes ∷ es) = bytes ++ shown es
shown (e ∷ es) = shown es

pub shown-append : (xs ys : List Effect) → shown (xs ++ ys) ≡ shown xs ++ shown ys
unfolding shown
shown-append [] ys = refl
shown-append (output bytes ∷ xs) ys = simp (shown-append xs ys, append_assoc)
shown-append (e ∷ xs) ys = shown-append xs ys

shown-output :
    (es : List Effect) (bytes : Bytes) → shown (es ++ output bytes ∷ []) ≡ shown es ++ bytes
unfolding shown
shown-output es bytes = shown-append es (output bytes ∷ []) ∙ rw append-nil

-- The scrollback is the end of what was shown, as much as fits.
pub record IsFaithful (t : Terminal) : Type 0 where
  pub holds : t.scrollback_buffer ≡ take_last scrollback_max_size (shown t.effects)

-- An effect that shows nothing.
abbrev pub IsQuiet : Effect → Type 0
IsQuiet e = (es : List Effect) → shown (es ++ e ∷ []) ≡ shown es

pub act-IsFaithful : {t : Terminal} (e : Effect) → IsQuiet e → IsFaithful t → IsFaithful (act e t)
act-IsFaithful {t} e quiet f = record { holds = rw (quiet t.effects) f.holds }

pub IsQuiet-storage_worker : IsQuiet storage_worker
unfolding shown
IsQuiet-storage_worker es = shown-append es (storage_worker ∷ []) ∙ append-nil (shown es)

request_storage_setup-shown :
    (t : Terminal) → shown (request_storage_setup t).effects ≡ shown t.effects
unfolding request_storage_setup
request_storage_setup-shown t = ground (arith, IsQuiet-storage_worker t.effects)

request_times-shown : (n : ℕ) (t : Terminal) → shown (request_times n t).effects ≡ shown t.effects
unfolding request_times
request_times-shown zero t = refl
request_times-shown (suc n) t =
    request_times-shown n (request_storage_setup t) ∙ request_storage_setup-shown t

scrollback_buffer-request_times :
    (n : ℕ) (t : Terminal) → (request_times n t).scrollback_buffer ≡ t.scrollback_buffer
unfolding request_times
scrollback_buffer-request_times zero t = refl
scrollback_buffer-request_times (suc n) t =
    scrollback_buffer-request_times n (request_storage_setup t)
    ∙ unfold request_storage_setup in ground arith

show_bytes-IsFaithful :
    (bytes : Bytes) {t : Terminal} → IsFaithful t → IsFaithful (show_bytes bytes t)
unfolding show_bytes
show_bytes-IsFaithful [] f = f
show_bytes-IsFaithful (b ∷ bytes) {t} f = record {
  holds =
      rw (f.holds, shown-output t.effects (b ∷ bytes))
        (take_last-append scrollback_max_size (shown t.effects) (b ∷ bytes));
}

show_bytes-shown :
    (bytes : Bytes) (t : Terminal) → shown (show_bytes bytes t).effects ≡ shown t.effects ++ bytes
unfolding show_bytes
show_bytes-shown [] t = sym (append-nil (shown t.effects))
show_bytes-shown (b ∷ bytes) t = shown-output t.effects (b ∷ bytes)

-- Output goes to the screen without its storage controls, and to the scrollback at the same time:
-- from a session whose scrollback is faithful, the screen gets what the filter lets through, behind
-- all that it had, and the scrollback stays the last MiB of the screen's bytes.
pub emit-IsFaithful :
    (bytes : Bytes) {t : Terminal}
    → IsFaithful t
    → IsFaithful (emit bytes t)
      × (shown (emit bytes t).effects
          ≡ shown t.effects ++ (filter_pty_controls storage_setup_osc t.control_tail bytes).out)
unfolding emit
emit-IsFaithful bytes {t} f =
    let g = filter_pty_controls storage_setup_osc t.control_tail bytes in
    let u = record t { control_tail = g.control_tail } in
    let same = request_times-shown g.controls u in
    let kept : IsFaithful (request_times g.controls u) = record {
      holds = rw (same, scrollback_buffer-request_times g.controls u) f.holds;
    } in
    (
      show_bytes-IsFaithful g.out kept,
      show_bytes-shown g.out (request_times g.controls u) ∙ rw same,
    )

-- The scrollback never holds more than its limit.
pub scrollback-le : {t : Terminal} → IsFaithful t → length t.scrollback_buffer ≤ scrollback_max_size
scrollback-le {t} f =
    rw f.holds (
      omega (arith, length-drop (length (shown t.effects) - scrollback_max_size) (shown t.effects)))

pub fresh_line-IsFaithful : {t : Terminal} → IsFaithful t → IsFaithful (fresh_line t)
unfolding fresh_line
fresh_line-IsFaithful {t} f =
    if-elim IsFaithful t.at_line_start f (emit-IsFaithful (13 ∷ 10 ∷ []) f).0

pub emit_prompt-IsFaithful : {t : Terminal} → IsFaithful t → IsFaithful (emit_prompt t)
unfolding emit_prompt
emit_prompt-IsFaithful f = (emit-IsFaithful _ (fresh_line-IsFaithful f)).0

pub emit_setup_prompt-IsFaithful : {t : Terminal} → IsFaithful t → IsFaithful (emit_setup_prompt t)
unfolding emit_setup_prompt
emit_setup_prompt-IsFaithful f = (emit-IsFaithful _ (fresh_line-IsFaithful f)).0
