-- ===== src/Clog/Laws.antt =====
-- What the log receives of the fragments.
use nimble_rs.Base.{
  ℕ, ◌≤◌, ◌≡◌, Bool, true, false, Option, none, some, List, [], ◌∷◌, ◌++◌, length, if◌then◌else◌,
  has,
}
use nimble_rs.Clog.{line_max, newline, LineBuf, Line, non_utf8}

-- The bytes of the fragments, in order.
abbrev pub all_bytes : List (ℕ × Option (List ℕ)) → List ℕ
all_bytes [] = []
all_bytes ((level, none) ∷ calls) = all_bytes calls
all_bytes ((level, some bytes) ∷ calls) = bytes ++ all_bytes calls

-- A line that was cut off, and whether a newline ended it.
abbrev pub Cut : Type 0
Cut = Line × Bool

-- The bytes that were cut into lines, with the newlines.
abbrev pub whole : List Cut → List ℕ
whole [] = []
whole (((level, bytes), true) ∷ cuts) = bytes ++ newline ∷ whole cuts
whole (((level, bytes), false) ∷ cuts) = bytes ++ whole cuts

-- A part of a line: it has no newline, and at most 256 bytes.
abbrev pub IsPart : List ℕ → Type 0
IsPart bytes = (has newline bytes ≡ false) × (length bytes ≤ line_max)

-- Each line ends at a newline, or it is full.
abbrev pub AreLines : List Cut → Type 0
AreLines [] = Unit
AreLines (((level, bytes), by_newline) ∷ cuts) =
    IsPart bytes × (by_newline ≡ false → length bytes ≡ line_max) × AreLines cuts

-- The line that a byte completes, by whether the byte is a newline.
abbrev cut_by : Bool → Option Line → List Cut
cut_by by_newline none = []
cut_by by_newline (some l) = (l, by_newline) ∷ []

module _ (is_utf8 : List ℕ → Bool) where
  -- The log gets a line as it is, or the text of `emit` in its place where it is not UTF-8; an empty
  -- line is left out.
  abbrev pub shown : List Cut → List Line
  shown [] = []
  shown (((level, []), n) ∷ cuts) = shown cuts
  shown (((level, b ∷ bytes), n) ∷ cuts) =
      (level, if is_utf8 (b ∷ bytes) then b ∷ bytes else non_utf8) ∷ shown cuts

  -- What a run leaves: the lines that the bytes are cut into, which the log gets as `shown` says, and the
  -- part of a line that waits.
  abbrev pub Kept : LineBuf → List ℕ → List Line × LineBuf → Type 0
  Kept line bytes r =
      (cuts : List Cut) × (r.0 ≡ shown cuts)
      × (whole cuts ++ r.1.buf ≡ line.buf ++ bytes)
      × AreLines cuts
      × IsPart r.1.buf
