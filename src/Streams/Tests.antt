-- ===== src/Streams/Tests.antt =====
-- The theorems on the writer at concrete writes.
use zabawheels.Prelude.{
  ◌≡◌, ◌≤◌, max, List, [], ◌∷◌, arith, Text, Absent, codes, encode, length, concat,
}
use zabawheels.Streams.{new_writer, to_crlf, flush, write, write_all, getvalue}
use zabawheels.Streams.Shown.{emitted-write_all}
use zabawheels.Streams.Pending.{write-pending}

abbrev two_writes : List Text
two_writes = codes "a\nb" ∷ codes "c\n" ∷ []

two_writes-Absent : Absent 13 (concat two_writes)
two_writes-Absent =
    (ground arith, (ground arith, (ground arith, (ground arith, (ground arith, tt)))))

emitted-write_all_example :
    (concat (flush (write_all two_writes new_writer)).emitted
      ≡ encode (to_crlf (concat two_writes)))
    × (getvalue (flush (write_all two_writes new_writer)) ≡ concat two_writes)
emitted-write_all_example = emitted-write_all two_writes two_writes-Absent

write-pending_example :
    Absent 10 (write (codes "a\nb") new_writer).pending
    × (length (write (codes "a\nb") new_writer).pending ≤ max 255 (length (codes "a\nb")))
write-pending_example = write-pending 97 (codes "\nb") new_writer tt
