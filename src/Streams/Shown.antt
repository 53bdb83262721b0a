-- ===== src/Streams/Shown.antt =====
-- What the terminal gets, against what was written.
use zabawheels.Prelude.{
  ℕ, ◌≡◌, refl, sym, ap, subst, ◌∙◌, false, Option, none, some, List, [], ◌∷◌, ◌++◌, append-nil,
  append_assoc, arith, Bytes, Text, Absent, Absent-append, Absent-split, encode, encode-append,
  length, concat, concat-append, leb, ◌==◌, if-elim, Bool-cases, inl, inr,
}
use zabawheels.Streams.{
  StreamingWriter, partial_flush_threshold, new_writer, to_lf, to_crlf, payload, parted_behind,
  rpartition, flush_pending, flush, write_lines, write, getvalue, write_all,
}

-- The bytes of a text that has no carriage return.
abbrev plain : Text → Bytes
plain text = encode (to_crlf text)

to_crlf-append : (s t : Text) → to_crlf (s ++ t) ≡ to_crlf s ++ to_crlf t
unfolding to_crlf
to_crlf-append [] t = refl
to_crlf-append (c ∷ s) t = elim (Bool-cases (c == 10)) [
  | inl newline ↦ rw newline (ap (λ u. 13 ∷ 10 ∷ u) (to_crlf-append s t))
  | inr other ↦ rw other (ap (λ u. c ∷ u) (to_crlf-append s t))
]

plain-append : (s t : Text) → plain (s ++ t) ≡ plain s ++ plain t
plain-append s t = ap encode (to_crlf-append s t) ∙ encode-append (to_crlf s) (to_crlf t)

to_lf-Absent : (s : Text) → Absent 13 s → to_lf s ≡ s
unfolding to_lf
to_lf-Absent [] h = refl
to_lf-Absent (c ∷ []) h = refl
to_lf-Absent (c ∷ d ∷ s) (hc, h) =
    let other : (c == 13) ≡ false = ground (arith, hc) in
    rw other (ap (λ u. c ∷ u) (to_lf-Absent (d ∷ s) h))

payload-plain : (s : Text) → Absent 13 s → payload s ≡ plain s
unfolding payload
payload-plain s h = ap plain (to_lf-Absent s h)

-- What a parting at the last newline says of the text.
abbrev pub IsParted : Text → Option (Text × Text) → Type 0
IsParted s none = Absent 10 s
IsParted s (some (head, tail)) = (s ≡ head ++ 10 ∷ tail) × Absent 10 tail

IsParted-parted_behind :
    (c : ℕ) (s : Text) (o : Option (Text × Text))
    → IsParted s o
    → IsParted (c ∷ s) (parted_behind c s o)
IsParted-parted_behind c s none h = elim (Bool-cases (c == 10)) [
  | inl newline ↦ let e : c ≡ 10 = ground arith in rw newline (ap (λ x. x ∷ s) e, h)
  | inr other ↦ rw other (ground arith, h)
]
IsParted-parted_behind c s (some (head, tail)) (e, h) = (ap (λ u. c ∷ u) e, h)

pub rpartition-IsParted : (s : Text) → IsParted s (rpartition s)
unfolding rpartition
rpartition-IsParted [] = tt
rpartition-IsParted (c ∷ s) = IsParted-parted_behind c s (rpartition s) (rpartition-IsParted s)

-- The terminal has got the bytes of all that was written but the pending text.
record IsShown (w : StreamingWriter) : Type 0 where
  shows : concat w.emitted ++ plain w.pending ≡ plain (concat w.buffer_text)
  absent : Absent 13 w.pending

-- One more payload.
shows-payload :
    (emitted : List Bytes) (head tail : Text)
    → Absent 13 head
    → concat (emitted ++ payload head ∷ []) ++ plain tail ≡ concat emitted ++ plain (head ++ tail)
shows-payload emitted head tail h =
    ap (λ u. u ++ plain tail)
      (concat-append emitted (payload head ∷ [])
        ∙ ap (λ u. concat emitted ++ u) (append-nil (payload head)))
    ∙ append_assoc (concat emitted) (payload head) (plain tail)
    ∙ ap (λ u. concat emitted ++ u)
        (ap (λ u. u ++ plain tail) (payload-plain head h) ∙ sym (plain-append head tail))

flush_pending-IsShown :
    (text : Text) {w : StreamingWriter}
    → w.pending ≡ text
    → IsShown w
    → IsShown (flush_pending text w)
unfolding flush_pending
flush_pending-IsShown [] e v = v
flush_pending-IsShown (c ∷ text) {w} e v = record {
  shows =
      shows-payload w.emitted (c ∷ text) [] (subst (Absent 13) e v.absent)
      ∙ ap (λ u. concat w.emitted ++ plain u) (append-nil (c ∷ text) ∙ sym e)
      ∙ v.shows;
  absent = tt;
}

flush-IsShown : {w : StreamingWriter} → IsShown w → IsShown (flush w)
unfolding flush
flush-IsShown {w} v = flush_pending-IsShown w.pending refl v

pending-flush_pending :
    (text : Text) (w : StreamingWriter) → w.pending ≡ text → (flush_pending text w).pending ≡ []
unfolding flush_pending
pending-flush_pending [] w e = e
pending-flush_pending (c ∷ text) w e = refl

pub pending-flush : (w : StreamingWriter) → (flush w).pending ≡ []
unfolding flush
pending-flush w = pending-flush_pending w.pending w refl

write_lines-IsShown :
    (o : Option (Text × Text)) {w : StreamingWriter}
    → IsParted w.pending o
    → IsShown w
    → IsShown (write_lines o w)
unfolding write_lines
write_lines-IsShown none {w} parted v =
    if-elim IsShown (leb partial_flush_threshold (length w.pending)) (flush-IsShown v) v
write_lines-IsShown (some (head, tail)) {w} (e, parted) v =
    let whole : w.pending ≡ (head ++ 10 ∷ []) ++ tail =
      e ∙ sym (append_assoc head (10 ∷ []) tail) in
    let (no_head, no_tail) =
      Absent-split 13 (head ++ 10 ∷ []) tail (subst (Absent 13) whole v.absent) in
    record {
      shows =
          shows-payload w.emitted (head ++ 10 ∷ []) tail no_head
          ∙ ap (λ u. concat w.emitted ++ plain u) (sym whole)
          ∙ v.shows;
      absent = no_tail;
    }

write-IsShown :
    (text : Text) {w : StreamingWriter} → Absent 13 text → IsShown w → IsShown (write text w)
unfolding write
write-IsShown [] h v = v
write-IsShown (c ∷ text) {w} h v =
    let t = c ∷ text in
    let pending = w.pending ++ t in
    write_lines-IsShown (rpartition pending)
      {w = record w { pending = pending; buffer_text = w.buffer_text ++ t ∷ [] }}
      (rpartition-IsParted pending)
      (record {
        shows =
            ap (λ u. concat w.emitted ++ u) (plain-append w.pending t)
            ∙ sym (append_assoc (concat w.emitted) (plain w.pending) (plain t))
            ∙ ap (λ u. u ++ plain t) v.shows
            ∙ sym (plain-append (concat w.buffer_text) t)
            ∙ ap plain (
                ap (λ u. concat w.buffer_text ++ u) (sym (append-nil t))
                ∙ sym (concat-append w.buffer_text (t ∷ [])));
        absent = Absent-append 13 w.pending t v.absent h;
      })

write_all-IsShown :
    (texts : List Text) {w : StreamingWriter}
    → Absent 13 (concat texts)
    → IsShown w
    → IsShown (write_all texts w)
unfolding write_all
write_all-IsShown [] h v = v
write_all-IsShown (text ∷ texts) h v =
    let (here, later) = Absent-split 13 text (concat texts) h in
    write_all-IsShown texts later (write-IsShown text here v)

buffer_text-flush_pending :
    (text : Text) (w : StreamingWriter) → (flush_pending text w).buffer_text ≡ w.buffer_text
unfolding flush_pending
buffer_text-flush_pending [] w = refl
buffer_text-flush_pending (c ∷ text) w = refl

buffer_text-flush : (w : StreamingWriter) → (flush w).buffer_text ≡ w.buffer_text
unfolding flush
buffer_text-flush w = buffer_text-flush_pending w.pending w

buffer_text-write_lines :
    (o : Option (Text × Text)) (w : StreamingWriter) → (write_lines o w).buffer_text ≡ w.buffer_text
unfolding write_lines
buffer_text-write_lines none w =
    if-elim {A = StreamingWriter} (λ u. u.buffer_text ≡ w.buffer_text)
      (leb partial_flush_threshold (length w.pending)) (buffer_text-flush w) refl
buffer_text-write_lines (some (head, tail)) w = refl

getvalue-write : (text : Text) (w : StreamingWriter) → getvalue (write text w) ≡ getvalue w ++ text
unfolding getvalue write
getvalue-write [] w = sym (append-nil (concat w.buffer_text))
getvalue-write (c ∷ text) w =
    ap concat (buffer_text-write_lines (rpartition (w.pending ++ c ∷ text)) _)
    ∙ concat-append w.buffer_text ((c ∷ text) ∷ [])
    ∙ ap (λ u. concat w.buffer_text ++ u) (append-nil (c ∷ text))

getvalue-write_all :
    (texts : List Text) (w : StreamingWriter)
    → getvalue (write_all texts w) ≡ getvalue w ++ concat texts
unfolding write_all
getvalue-write_all [] w = sym (append-nil (getvalue w))
getvalue-write_all (text ∷ texts) w =
    getvalue-write_all texts (write text w)
    ∙ ap (λ u. u ++ concat texts) (getvalue-write text w)
    ∙ append_assoc (getvalue w) text (concat texts)

-- However a program cuts its output into writes, after a flush the terminal has got exactly the UTF-8
-- bytes of the whole text with every newline as CR LF, in order and nothing twice, and the REST API
-- gets the text as it was written; for text with no carriage return of its own.
pub emitted-write_all :
    (texts : List Text)
    → Absent 13 (concat texts)
    → (concat (flush (write_all texts new_writer)).emitted ≡ encode (to_crlf (concat texts)))
      × (getvalue (flush (write_all texts new_writer)) ≡ concat texts)
unfolding getvalue encode to_crlf
emitted-write_all texts h =
    let w = write_all texts new_writer in
    let v =
      flush-IsShown
        (write_all-IsShown texts {w = new_writer} h (record { shows = refl; absent = tt })) in
    let all : concat w.buffer_text ≡ concat texts = getvalue-write_all texts new_writer in
    let kept = ap concat (buffer_text-flush w) ∙ all in
    (
      sym (append-nil _)
          ∙ ap (λ u. concat (flush w).emitted ++ plain u) (sym (pending-flush w))
          ∙ v.shows
          ∙ ap plain kept,
      kept,
    )
