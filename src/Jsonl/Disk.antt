-- ===== src/Jsonl/Disk.antt =====
-- A file buffer over a disk with limited room, which keeps what is asked of a file buffer. The
-- concrete runs write to it.
use sql_proxy_service.Prelude.{
  ℕ, zero, suc, ◌-◌, ◌≤◌, ◌≡◌, refl, sym, true, [], ◌∷◌, ◌++◌, arith, leb, leb_iff, length, take,
  drop, Bytes,
}
use mathlib.Core.List.{append-nil}
use sql_proxy_service.Jsonl.{Filebuf}
use sql_proxy_service.Jsonl.Buffer.{IsFilebuf}

-- The bytes of the file, those that wait, and the room that is left.
pub record Disk : Type 0 where
  pub content : Bytes
  pub pending : Bytes
  pub room : ℕ

abbrev pub disk : Filebuf Disk
disk = record {
  put = λ bytes f. (true, record f { pending = f.pending ++ bytes });
  sync = λ f. (
    leb (length f.pending) f.room,
    record {
      content = f.content ++ take f.room f.pending;
      pending = drop f.room f.pending;
      room = f.room - length f.pending;
    },
  );
}

drop_all : (n : ℕ) (s : Bytes) → length s ≤ n → drop n s ≡ []
drop_all zero [] h = refl
drop_all zero (c ∷ s) h = absurd (omega (arith, h))
drop_all (suc n) [] h = refl
drop_all (suc n) (c ∷ s) h = drop_all n s (omega (arith, h))

pub disk-IsFilebuf : IsFilebuf disk (λ f. f.content) (λ f. f.pending)
disk-IsFilebuf = record {
  put = λ bytes f. (0, sym (append-nil f.content), λ h. refl);
  sync = λ f. (
    f.room,
    refl,
    λ h.
        let all_ = drop_all f.room f.pending ((leb_iff (length f.pending) f.room).0 h) in
        (all_, all_),
  );
}
