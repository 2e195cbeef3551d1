-- ===== src/Session/Durable.antt =====
-- src/engines/session.rs: what the flush says of the image.
use dfdisk.Prelude.{
  ◌≡◌, refl, Bool, true, false, not, ◌&&◌, ◌||◌, Option, none, some, List, [], ◌∷◌, ◌++◌, is_empty,
  Text,
}
use dfdisk.Prelude.Members.{all}
use dfdisk.Comparing.{is_none}
use dfdisk.Preflight.{one_of}
use dfdisk.Session.{
  FileFlush, FlushReport, ImageFlush, nothing_flushed, flush_loop, image_flush, push_directory,
  push_durable, push_evicted,
}

-- A file of the image that was flushed, or another file.
abbrev pub is_flushed : List Text → FileFlush → Bool
is_flushed image_files f = not (one_of f.path image_files) || is_none f.file_not_durable

is_empty-append : (xs : List Text) (x : Text) → is_empty (xs ++ x ∷ []) ≡ false
is_empty-append [] x = refl
is_empty-append (y ∷ ys) x = refl

push_durable-empty :
    (image : Bool) (o : Option Text) (r : ImageFlush)
    → is_empty (push_durable image o r).not_durable
      ≡ ((not image || is_none o) && is_empty r.not_durable)
unfolding push_durable
push_durable-empty true none r = refl
push_durable-empty false none r = refl
push_durable-empty true (some p) r = is_empty-append r.not_durable p
push_durable-empty false (some p) r = refl

push_evicted-same :
    (image : Bool) (o : Option Text) (r : ImageFlush)
    → (push_evicted image o r).not_durable ≡ r.not_durable
unfolding push_evicted
push_evicted-same true none r = refl
push_evicted-same false none r = refl
push_evicted-same true (some p) r = refl
push_evicted-same false (some p) r = refl

flush_loop-empty :
    (image_files : List Text) (fs : List FileFlush) (r : ImageFlush)
    → is_empty (flush_loop image_files fs r).not_durable
      ≡ (all (is_flushed image_files) fs && is_empty r.not_durable)
unfolding flush_loop all
flush_loop-empty image_files [] r = refl
flush_loop-empty image_files (f ∷ fs) r =
    let image = one_of f.path image_files in
    let s = push_durable image f.file_not_durable r in
    rw
      (
        flush_loop-empty image_files fs (push_evicted image f.file_not_evicted s),
        push_evicted-same image f.file_not_evicted s,
        push_durable-empty image f.file_not_durable r,
      )
      (shuffle (is_flushed image_files f) (all (is_flushed image_files) fs)
        (is_empty r.not_durable))
  where
    shuffle : (a b c : Bool) → (b && (a && c)) ≡ ((a && b) && c)
    shuffle true true c = refl
    shuffle true false c = refl
    shuffle false true c = refl
    shuffle false false c = refl

push_directory-empty :
    (image_files : List Text) (o : Option Text) (r : ImageFlush)
    → is_empty (push_directory image_files o r).not_durable
      ≡ ((is_empty image_files || is_none o) && is_empty r.not_durable)
unfolding push_directory
push_directory-empty [] none r = refl
push_directory-empty (f ∷ fs) none r = refl
push_directory-empty [] (some p) r = refl
push_directory-empty (f ∷ fs) (some p) r = is_empty-append r.not_durable _

-- The flush finds the image durable exactly if every file of the image was flushed, and so was the
-- directory unless there is no image; what happened to other files does not matter.
pub image_flush-durable :
    (flush : FlushReport) (image_files : List Text)
    → is_empty (image_flush flush image_files).not_durable ≡ (
        (is_empty image_files || is_none flush.directory)
        && all (is_flushed image_files) flush.files)
unfolding image_flush
image_flush-durable flush image_files =
    rw
      (
        push_directory-empty image_files flush.directory _,
        flush_loop-empty image_files flush.files nothing_flushed,
        and_true (all (is_flushed image_files) flush.files),
      )
      (refl)
  where
    and_true : (b : Bool) → (b && true) ≡ b
    and_true true = refl
    and_true false = refl
