-- ===== src/Console/Start.antt =====
-- `init` and `new`: the table of the glyphs, and the console on an accepted font file.
use mxos_v.Base.{
  ℕ, suc, ◌*◌, ◌^◌, ◌≤◌, ◌<◌, ◌≡◌, inl, inr, refl, Option, none, some, List, [], ◌∷◌, length, ◌==◌,
  Bool-cases, if◌then◌else◌, ◌>>=◌, arith,
}
use mxos_v.Psf.Outcome.{ok}
use mxos_v.Psf.Ucs2.{chars}
use mxos_v.Psf.Ucs2.Laws.{AllBytes}
use mxos_v.Psf.File.{PsfFile, parse}
use mxos_v.Psf.File.Laws.{parse-IsFont}
use mxos_v.Psf.Entries.{UnicodeTableEntry, Value, unicode_table_entries}
use mxos_v.Psf.Entries.Run.{run, AllBelow}
use mxos_v.Psf.Entries.Laws.{parse-entries}
use mxos_v.Console.{Info, ConsoleGraphics, clear, fill_at}
use mxos_v.Console.Buffer.{length-fill_at}
use mxos_v.Console.Cursor.{IsConsole}
use mxos_v.Console.Fonts.{font_of, parse-FitsFont}

-- `HashMap::insert`
abbrev pub insert : ℕ → ℕ → (ℕ → Option ℕ) → ℕ → Option ℕ
insert ch id table c = if c == ch then some id else table c

-- The characters of a string of the table.
unfoldable pub value_chars : Value → List ℕ
value_chars (Value.utf8 s) = s
value_chars (Value.ucs2 s) = chars s

-- The inner loops of `new`.
unfoldable pub insert_chars : List ℕ → ℕ → (ℕ → Option ℕ) → ℕ → Option ℕ
insert_chars [] id table = table
insert_chars (ch ∷ s) id table = insert_chars s id (insert ch id table)

-- The loop of `new` over the entries.
unfoldable pub insert_entries : List UnicodeTableEntry → (ℕ → Option ℕ) → ℕ → Option ℕ
insert_entries [] table = table
insert_entries (x ∷ xs) table = insert_entries xs (insert_chars (value_chars x.value) x.index table)

unfoldable pub new : PsfFile → Info → List ℕ → Option ConsoleGraphics
new f info buffer = run (suc (length f.raw_bytes)) (unicode_table_entries f) >>= λ xs.
    some (record {
      font = font_of f;
      info = info;
      buffer = buffer;
      table = insert_entries xs (λ ch. none);
      cursor = record { x = 0; y = 0 };
    })

unfoldable pub init : PsfFile → Info → List ℕ → Option ConsoleGraphics
init f info buffer = new f info buffer >>= λ c. some (clear c)

-- Every glyph of the table is below `n`.
abbrev Indexes : ℕ → (ℕ → Option ℕ) → Type 0
Indexes n table = (ch id : ℕ) → table ch ≡ some id → id < n

insert-Indexes :
    (n ch id : ℕ) (table : ℕ → Option ℕ) → id < n → Indexes n table → Indexes n (insert ch id table)
insert-Indexes n ch id table small below c i h = elim (Bool-cases (c == ch)) [
  | inl e ↦ let same : some id ≡ some i = (rw e at h) in let eq : id ≡ i = cc same in omega arith
  | inr e ↦ below c i (rw e at h)
]

insert_chars-Indexes :
    (n : ℕ) (s : List ℕ) (id : ℕ) (table : ℕ → Option ℕ)
    → id < n
    → Indexes n table
    → Indexes n (insert_chars s id table)
unfolding insert_chars
insert_chars-Indexes n [] id table small below = below
insert_chars-Indexes n (ch ∷ s) id table small below =
    insert_chars-Indexes n s id (insert ch id table) small
      (insert-Indexes n ch id table small below)

insert_entries-Indexes :
    (n : ℕ) (xs : List UnicodeTableEntry) (table : ℕ → Option ℕ)
    → AllBelow n xs
    → Indexes n table
    → Indexes n (insert_entries xs table)
unfolding insert_entries
insert_entries-Indexes n [] table all below = below
insert_entries-Indexes n (x ∷ xs) table (small, all) below =
    insert_entries-Indexes n xs (insert_chars (value_chars x.value) x.index table) all
      (insert_chars-Indexes n (value_chars x.value) x.index table small below)

-- On an accepted font file of less than 4 GiB, with glyphs of a column or more that are smaller than
-- the frame buffer, and on a buffer that has a place for every pixel, `init` does not panic and
-- leaves a console on which every write succeeds: the room for a glyph at the cursor, and a glyph of
-- the right size for every character of the table.
pub init-IsConsole :
    (bytes : List ℕ) (f : PsfFile) (info : Info) (buffer : List ℕ)
    → parse bytes ≡ ok f
    → AllBytes bytes
    → length bytes < 2 ^ 32
    → 0 < f.glyph_width
    → f.glyph_width < info.width
    → f.glyph_height < info.height
    → info.width ≤ info.stride
    → info.bytes_per_pixel * (info.stride * info.height) ≤ length buffer
    → (c : ConsoleGraphics) × (init f info buffer ≡ some c) × IsConsole c
unfolding init new clear font_of
init-IsConsole bytes f info buffer accepted small short column wide tall stride room =
    let whole = (parse-IsFont bytes accepted).1 in
    let len : length f.raw_bytes ≡ length bytes = rw whole refl in
    let (xs, runs, below) =
      parse-entries bytes f (suc (length f.raw_bytes)) accepted small short (omega arith) in
    let table = insert_entries xs (λ ch. none) in
    let c : ConsoleGraphics = record {
      font = font_of f;
      info = info;
      buffer = fill_at 0 (length buffer) 0 buffer;
      table = table;
      cursor = record { x = 0; y = 0 };
    } in
    (
      c,
      rw (init, new, runs) refl,
      record {
        wide = omega arith;
        tall = omega arith;
        stride = stride;
        room = rw (length-fill_at 0 (length buffer) 0 buffer) room;
        glyphs = λ ch id h.
            (parse-FitsFont bytes f id accepted short column
              (insert_entries-Indexes f.num_glyphs xs (λ ch. none) below (λ c i e. cc) ch id h)).1;
      },
    )
