-- ===== src/Stl/Tests.antt =====
-- A file of one triangle in memory, and the theorems at it.
use model3d.Base.{
  ℕ, ◌≡◌, refl, sym, ap, true, false, none, some, List, [], ◌∷◌, ◌++◌, arith, nat_beq,
  if◌then◌else◌, nat_eq, replicate, take,
}
use model3d.Stl.{
  Vector, StlTriangle, too_many, eof, unexpected_eof, ok, err, Writer, StlWriter, new_stl_writer,
  write_triangle, write_triangles, new_stl_reader, read_binary, read_triangles, put_uint32,
  put_buffer, after_newline, is_stl_chunk_ascii, list_beq, all_ascii, new_stl_reader_ascii,
}
use model3d.Stl.Bytes.{Entry}
use model3d.Stl.{solid_word, put_vector}
use model3d.Stl.Reading.{FitsAll, Reads, all_entries, reader_at, read-cut}
use model3d.Stl.RoundTrip.{write-Reads}

-- `bytes.Buffer`, which never fails
abbrev buffer : Writer (List ℕ)
buffer = record {
  write = λ s bs. (true, s ++ bs);
  written = λ s. s;
  written-write = λ s t bs e. sym (ap (λ r. r.1) e);
}

abbrev vector : ℕ → ℕ → ℕ → Vector
vector x y z = record { x = x; y = y; z = z }

-- the floats 1 and -2 stand at 0x3f80_0000 and 0xc000_0000
abbrev one_triangle : StlTriangle
one_triangle = record {
  normal = vector 0 0 0x3f80_0000;
  v0 = vector 0 0 0;
  v1 = vector 0x3f80_0000 0 0;
  v2 = vector 0 0xc000_0000 0;
}

abbrev triangles : List StlTriangle
triangles = one_triangle ∷ []

triangles-FitsAll : FitsAll triangles
triangles-FitsAll = ground arith

abbrev started : StlWriter (List ℕ)
started = record { w = replicate 80 0 ++ put_uint32 1; tris_left = 1 }

abbrev finished : StlWriter (List ℕ)
finished = record { w = (started.w ++ put_buffer one_triangle) ++ 0 ∷ 0 ∷ []; tris_left = 0 }

started-ok : new_stl_writer buffer [] 1 ≡ ok started
unfolding new_stl_writer
started-ok = refl

finished-ok : write_triangles buffer triangles started ≡ (none, finished)
unfolding write_triangles write_triangle
finished-ok = refl

-- a text file, of which the reader keeps what is behind the first line
text_file :
    new_stl_reader (115 ∷ 111 ∷ 108 ∷ 105 ∷ 100 ∷ 10 ∷ 97 ∷ [])
    ≡ ok (record { r = 97 ∷ []; is_binary = false; num_tris = 0; read_tris = 0 })
unfolding new_stl_reader is_stl_chunk_ascii list_beq all_ascii new_stl_reader_ascii after_newline
text_file = refl

write-Reads_example :
    Reads (buffer.written finished.w) triangles
    × (write_triangle buffer finished one_triangle ≡ (some too_many, finished))
write-Reads_example =
    write-Reads buffer triangles one_triangle [] started finished (omega arith) triangles-FitsAll
      refl started-ok finished-ok

-- a header that starts as a text does
abbrev solid_header : List ℕ
solid_header = solid_word ++ replicate 75 32

-- a triangle with bytes behind it that no writer here makes
abbrev entries : List Entry
entries = (one_triangle, (7, 9)) ∷ []

entries-no_text :
    is_stl_chunk_ascii (take 512 (solid_header ++ (put_uint32 2 ++ (all_entries entries ++ []))))
    ≡ false
unfolding is_stl_chunk_ascii list_beq all_ascii put_uint32 put_buffer put_vector
entries-no_text = refl

read-cut_example :
    (new_stl_reader (solid_header ++ (put_uint32 2 ++ (all_entries entries ++ [])))
      ≡ ok (reader_at (all_entries entries ++ []) 2 0))
    × (read_triangles 1 (reader_at (all_entries entries ++ []) 2 0)
        ≡ ok (triangles, reader_at [] 2 1))
    × (read_binary (reader_at [] 2 1) ≡ err (if nat_beq 0 0 then eof else unexpected_eof))
read-cut_example =
    read-cut solid_header entries [] 2 (omega arith) entries-no_text (omega arith) (omega arith)
      triangles-FitsAll (omega arith)
