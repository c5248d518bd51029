-- ===== src/Tests/Framing.antt =====
-- Frames over texts in place of JSON.
use linux_rag_t.Transport.Framing.{frame, Codec, read_frame, write_frame}
use linux_rag_t.Prelude.{chars, ◌++◌, refl, some, true, String, of_chars, ◌≡◌}
use linux_rag_t.Transport.Framing.RoundTrip.{read_frame-write_frame}

abbrev plain : Codec String
plain = record { encode = chars; decode = λ l. some (of_chars l); is_utf8 = λ l. true }

on_the_wire : of_chars (write_frame plain "{\"a\":1}") ≡ "7\n{\"a\":1}\n"
unfolding write_frame of_chars
on_the_wire = refl

read_frame-write_frame_example :
    read_frame plain (write_frame plain "{}" ++ chars "9") ≡ frame "{}" (chars "9")
unfolding of_chars
read_frame-write_frame_example = read_frame-write_frame plain "{}" (chars "9") refl refl
