-- ===== src/Stl/RoundTrip.antt =====
-- fileformats/stl.go: writing the triangles of a file and reading them back.
use model3d.Base.{
  ℕ, ◌+◌, ◌^◌, ◌<◌, ◌≡◌, refl, sym, ap, ◌∙◌, inl, inr, true, none, some, List, [], ◌∷◌, ◌++◌, arith,
  nat_eq, Option-cases, length, replicate,
}
use model3d.Stl.{
  StlTriangle, too_many, ok, Writer, StlWriter, new_stl_writer, write_triangle, write_triangles,
  put_uint32, put_buffer,
}
use model3d.Stl.Bytes.{triangle_bytes}
use model3d.Stl.Reading.{FitsAll, Reads, all_bytes, append_assoc, append_nil, file_bytes, read_file}

module _ {S : Type 0} (o : Writer S) where
  written_ok :
      (s : S) (bs : List ℕ)
      → (o.write s bs).0 ≡ true
      → o.written (o.write s bs).1 ≡ o.written s ++ bs
  written_ok s bs h = o.written-write s (o.write s bs).1 bs (ap (λ b. (b, (o.write s bs).1)) h)

  write_one :
      (s s' : StlWriter S) (t : StlTriangle)
      → write_triangle o s t ≡ (none, s')
      → (o.written s'.w ≡ o.written s.w ++ triangle_bytes t) × (s'.tris_left + 1 ≡ s.tris_left)
  unfolding write_triangle
  write_one s s' t e =
      let w1 = (o.write s.w (put_buffer t)).1 in
      let first = written_ok s.w (put_buffer t) in
      let second = written_ok w1 (0 ∷ 0 ∷ []) in
      ground (arith, first, second, append_assoc (o.written s.w) (put_buffer t) (0 ∷ 0 ∷ []))

  write_all :
      (ts : List StlTriangle) (s s' : StlWriter S)
      → write_triangles o ts s ≡ (none, s')
      → (o.written s'.w ≡ o.written s.w ++ all_bytes ts) × (s'.tris_left + length ts ≡ s.tris_left)
  unfolding write_triangles
  write_all [] s s' e = ground (arith, append_nil (o.written s.w))
  write_all (t ∷ ts) s s' e =
      let s1 = (write_triangle o s t).1 in
      let one : (write_triangle o s t).0 ≡ none → write_triangle o s t ≡ (none, s1) =
        λ fine. ap (λ r. (r, s1)) fine in
      elim (Option-cases (write_triangle o s t).0) [
        | inl fine ↦
            let first = write_one s s1 t (one fine) in
            let later = write_all ts s1 s' (sym (rw (write_triangles, fine) refl) ∙ e) in
            (
              later.0
                  ∙ ap (λ bs. bs ++ all_bytes ts) first.0
                  ∙ append_assoc (o.written s.w) (triangle_bytes t) (all_bytes ts),
              omega (arith, first.1, later.1),
            )
        | inr (x, failed) ↦ absurd (ground (arith, failed))
      ]

  write_header :
      (w : S) (n : ℕ) (s : StlWriter S)
      → new_stl_writer o w n ≡ ok s
      → (o.written s.w ≡ o.written w ++ (replicate 80 0 ++ put_uint32 n)) × (s.tris_left ≡ n)
  unfolding new_stl_writer
  write_header w n s e =
      let w1 = (o.write w (replicate 80 0)).1 in
      let first = written_ok w (replicate 80 0) in
      let second = written_ok w1 (put_uint32 n) in
      ground (arith, first, second, append_assoc (o.written w) (replicate 80 0) (put_uint32 n))

-- When a file was started empty for the number of its triangles and each triangle was written, all
-- without an error, a reader of its bytes finds that it is binary, with the number of its
-- triangles, reads in the binary form the same triangles in their order and then reports the end,
-- and one more triangle cannot be written; the number of triangles and each float are below 2 ^
-- 32.
pub write-Reads :
    {S : Type 0} (o : Writer S) (ts : List StlTriangle) (more : StlTriangle) (w : S)
    (s s' : StlWriter S)
    → length ts < 2 ^ 32
    → FitsAll ts
    → o.written w ≡ []
    → new_stl_writer o w (length ts) ≡ ok s
    → write_triangles o ts s ≡ (none, s')
    → Reads (o.written s'.w) ts × (write_triangle o s' more ≡ (some too_many, s'))
unfolding write_triangle
write-Reads o ts more w s s' small fits empty started done =
    let header = write_header o w (length ts) s started in
    let body = write_all o ts s s' done in
    let whole : o.written s'.w ≡ file_bytes ts =
      body.0
      ∙ ap (λ bs. bs ++ all_bytes ts) header.0
      ∙ ap (λ bs. (bs ++ (replicate 80 0 ++ put_uint32 (length ts))) ++ all_bytes ts) empty
      ∙ append_assoc (replicate 80 0) (put_uint32 (length ts)) (all_bytes ts) in
    let used : s'.tris_left ≡ 0 = omega (arith, header.1, body.1) in
    (rw whole (read_file ts small fits), rw used refl)
