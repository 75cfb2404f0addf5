-- ===== src/Jsonl/Buffer.antt =====
-- Writing through a stream into a file buffer.
use sql_proxy_service.Prelude.{
  ℕ, zero, suc, ◌≡◌, refl, sym, ap, ◌∙◌, Bool, true, false, [], ◌∷◌, ◌++◌, take, drop,
  take-append-drop, Bytes,
}
use mathlib.Core.List.{append_assoc, append-nil}
use sql_proxy_service.Jsonl.{Filebuf, Stream, insert, flush}

-- What the standard library documents of a file buffer, with the bytes that the file holds and the
-- bytes that wait in the buffer: a first part of what waits and of what is written reaches the end
-- of the file, and if the write succeeds the rest waits; a flush that succeeds leaves nothing to
-- wait.
pub record IsFilebuf {F : Type 0} (device : Filebuf F) (content pending : F → Bytes) : Type 0 where
  pub put :
      (bytes : Bytes) (f : F)
      → (k : ℕ) × (content (device.put bytes f).1 ≡ content f ++ take k (pending f ++ bytes))
        × ((device.put bytes f).0 ≡ true
            → pending (device.put bytes f).1 ≡ drop k (pending f ++ bytes))
  pub sync :
      (f : F)
      → (k : ℕ) × (content (device.sync f).1 ≡ content f ++ take k (pending f))
        × ((device.sync f).0 ≡ true → (pending (device.sync f).1 ≡ []) × (drop k (pending f) ≡ []))

-- Nothing waits in the buffer of a stream that has not failed.
abbrev pub IsClean : {F : Type 0} → (F → Bytes) → Stream F → Type 0
IsClean pending s = s.good ≡ true → pending s.file ≡ []

-- A first part, and a first part of the rest and of what follows, are a first part of the whole.
take-drop_append :
    (k n : ℕ) (s t : Bytes)
    → (m : ℕ) × (take k s ++ take n (drop k s ++ t) ≡ take m (s ++ t))
      × (drop n (drop k s ++ t) ≡ drop m (s ++ t))
take-drop_append zero n s t = (n, refl, refl)
take-drop_append (suc k) n [] t = (n, refl, refl)
take-drop_append (suc k) n (c ∷ s) t =
    let (m, e, d) = take-drop_append k n s t in (suc m, ap (◌∷◌ c) e, d)

take_append : (k : ℕ) (s t : Bytes) → (m : ℕ) × (take k s ≡ take m (s ++ t))
take_append zero s t = (0, refl)
take_append (suc k) [] t = (0, refl)
take_append (suc k) (c ∷ s) t = let (m, e) = take_append k s t in (suc m, ap (◌∷◌ c) e)

take_of_drop : (k : ℕ) (s : Bytes) → drop k s ≡ [] → take k s ≡ s
take_of_drop zero s h = sym h
take_of_drop (suc k) [] h = refl
take_of_drop (suc k) (c ∷ s) h = ap (◌∷◌ c) (take_of_drop k s h)

abbrev pub stream : {F : Type 0} → Bool → Bool → F → Stream F
stream o b f = record { is_open = o; good = b; file = f }

module _ {F : Type 0} (device : Filebuf F) (content pending : F → Bytes)
    (laws : IsFilebuf device content pending) where
  -- Behind `start` the file has a first part of the bytes written since; while the stream is good,
  -- the rest waits.
  abbrev pub Writing : Bytes → Bytes → Bool → F → Type 0
  Writing start text true f =
      (k : ℕ) × (content f ≡ start ++ take k text) × (pending f ≡ drop k text)
  Writing start text false f = (k : ℕ) × (content f ≡ start ++ take k text)

  put-Writing :
      (start text bytes : Bytes) (f g : F) (b : Bool) (n : ℕ)
      → Writing start text true f
      → content g ≡ content f ++ take n (pending f ++ bytes)
      → (b ≡ true → pending g ≡ drop n (pending f ++ bytes))
      → Writing start (text ++ bytes) b g
  put-Writing start text bytes f g true n (k, e, p) c d =
      let (m, w, x) = take-drop_append k n text bytes in
      (
        m,
        c
            ∙ rw (e, p)
                (append_assoc start (take k text) (take n (drop k text ++ bytes))
                  ∙ ap (◌++◌ start) w),
        d refl ∙ rw p x,
      )
  put-Writing start text bytes f g false n (k, e, p) c d =
      let (m, w, x) = take-drop_append k n text bytes in
      (
        m,
        c
            ∙ rw (e, p)
                (append_assoc start (take k text) (take n (drop k text ++ bytes))
                  ∙ ap (◌++◌ start) w),
      )

  pub insert-Writing :
      (start text bytes : Bytes) (o b : Bool) (f : F)
      → Writing start text b f
      → let s = insert device bytes (stream o b f) in Writing start (text ++ bytes) s.good s.file
  unfolding insert
  insert-Writing start text bytes o true f w =
      let (n, c, d) = laws.put bytes f in put-Writing start text bytes f _ _ n w c d
  insert-Writing start text bytes o false f (k, e) =
      let (m, w) = take_append k text bytes in (m, e ∙ ap (◌++◌ start) w)

  -- After a flush: everything is in the file, or the stream has failed with a first part in it.
  abbrev pub Flushed : Bytes → Bytes → Bool → F → Type 0
  Flushed start text true f = (content f ≡ start ++ text) × (pending f ≡ [])
  Flushed start text false f = (k : ℕ) × (content f ≡ start ++ take k text)

  sync-Flushed :
      (start text : Bytes) (f g : F) (b : Bool) (n : ℕ)
      → Writing start text true f
      → content g ≡ content f ++ take n (pending f)
      → (b ≡ true → (pending g ≡ []) × (drop n (pending f) ≡ []))
      → Flushed start text b g
  sync-Flushed start text f g true n (k, e, p) c d =
      let (clear, rest) = d refl in
      (
        c
            ∙ rw (take_of_drop n (pending f) rest, e, p)
                (append_assoc start (take k text) (drop k text))
            ∙ ap (◌++◌ start) (take-append-drop k text),
        clear,
      )
  sync-Flushed start text f g false n (k, e, p) c d =
      let (m, w, x) = take-drop_append k n text [] in
      (
        m,
        c
            ∙ rw (e, sym (append-nil (pending f)), p)
                (append_assoc start (take k text) (take n (drop k text ++ [])))
            ∙ ap (◌++◌ start) w
            ∙ rw (append-nil text),
      )

  pub flush-Flushed :
      (start text : Bytes) (o b : Bool) (f : F)
      → Writing start text b f
      → let s = flush device (stream o b f) in Flushed start text s.good s.file
  unfolding flush
  flush-Flushed start text o true f w =
      let (n, c, d) = laws.sync f in sync-Flushed start text f _ _ n w c d
  flush-Flushed start text o false f w = w
