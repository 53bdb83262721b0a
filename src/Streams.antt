-- ===== src/Streams.antt =====
-- `StreamingWriter` of app/zmux/streams.py: text that goes to the terminal line by line, and is kept
-- whole for the callers that want all of it.
pub mod Shown
pub mod Pending
pub mod Tests
use zabawheels.Prelude.{
  ℕ, ◌≤◌, Bool, true, false, ◌&&◌, Option, none, some, List, [], ◌∷◌, ◌++◌, Bytes, Text, encode,
  length, concat, leb, ◌==◌, if◌then◌else◌,
}

-- `emitted` is what `_emit` has got, in order.
pub record StreamingWriter : Type 0 where
  pub pending : Text
  pub buffer_text : List Text
  pub emitted : List Bytes

-- `PARTIAL_FLUSH_THRESHOLD`
abbrev pub partial_flush_threshold : ℕ
partial_flush_threshold = 256

-- `__init__`
abbrev pub new_writer : StreamingWriter
new_writer = record { pending = []; buffer_text = []; emitted = [] }

-- `text.replace("\r\n", "\n")`
unfoldable pub to_lf : Text → Text
to_lf [] = []
to_lf (c ∷ []) = c ∷ []
to_lf (c ∷ d ∷ text) =
    let here = to_lf text in
    let later = to_lf (d ∷ text) in if c == 13 && d == 10 then 10 ∷ here else c ∷ later

-- `text.replace("\n", "\r\n")`
unfoldable pub to_crlf : Text → Text
to_crlf [] = []
to_crlf (c ∷ text) = let rest = to_crlf text in if c == 10 then 13 ∷ 10 ∷ rest else c ∷ rest

-- The bytes of a piece of text for the terminal.
unfoldable pub payload : Text → Bytes
payload text = encode (to_crlf (to_lf text))

-- The texts on the two sides of the last newline (`rpartition("\n")`), if there is one.
abbrev pub parted_behind : ℕ → Text → Option (Text × Text) → Option (Text × Text)
parted_behind c text none = if c == 10 then some ([], text) else none
parted_behind c text (some (head, tail)) = some (c ∷ head, tail)

unfoldable pub rpartition : Text → Option (Text × Text)
rpartition [] = none
rpartition (c ∷ text) = parted_behind c text (rpartition text)

-- `flush`
unfoldable pub flush_pending : Text → StreamingWriter → StreamingWriter
flush_pending [] w = w
flush_pending (c ∷ text) w = record w {
  emitted = w.emitted ++ payload (c ∷ text) ∷ [];
  pending = [];
}

unfoldable pub flush : StreamingWriter → StreamingWriter
flush w = flush_pending w.pending w

-- The end of `write`, once the text has been appended.
unfoldable pub write_lines : Option (Text × Text) → StreamingWriter → StreamingWriter
write_lines (some (head, tail)) w = record w {
  emitted = w.emitted ++ payload (head ++ 10 ∷ []) ∷ [];
  pending = tail;
}
write_lines none w = if leb partial_flush_threshold (length w.pending) then flush w else w

-- `write`, of text.
unfoldable pub write : Text → StreamingWriter → StreamingWriter
write [] w = w
write (c ∷ text) w =
    let pending = w.pending ++ c ∷ text in
    write_lines (rpartition pending)
      (record w { pending = pending; buffer_text = w.buffer_text ++ (c ∷ text) ∷ [] })

-- `getvalue`
unfoldable pub getvalue : StreamingWriter → Text
getvalue w = concat w.buffer_text

unfoldable pub write_all : List Text → StreamingWriter → StreamingWriter
write_all [] w = w
write_all (text ∷ texts) w = write_all texts (write text w)
