-- ===== src/Envd/Examples.antt =====
-- A run of the limited writer.
use kubebox.Common.{[], ◌∷◌, List, Text, length, take, pos, ◌≡◌}
use kubebox.Envd.Output.{LimitedWriter, write, write_all, concat, write_all_lem}

abbrev chunks : List Text
chunks = (b'a' ∷ b'b' ∷ []) ∷ (b'c' ∷ b'd' ∷ []) ∷ []

written_chunks :
    ((write_all (record { buffer = []; max = pos 3 }) chunks).buffer ≡ take 3 (concat chunks))
    × ((l : LimitedWriter) (p : Text) → (write l p).1 ≡ length p)
written_chunks = write_all_lem 3 chunks
