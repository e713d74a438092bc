-- ===== src/Server/Disk/Laws.antt =====
-- src/server/Util.hpp, `FileUtil`: what is read back after a write, and what a bad range gives.
use asyn_log_system.Prelude.{
  ◌↔◌, sym, ℕ, ◌+◌, ◌≤◌, ◌<◌, ◌≡◌, refl, ◌≢◌, inl, inr, ap, true, false, length, take, drop, Option,
  none, some, size_mod, arith, take_of_le, length-take, length-drop, Bool-cases, ◌∙◌,
}
use asyn_log_system.Prelude.Text.{Text, text_eq, text_eq_iff, text_eq_refl}
use asyn_log_system.Server.Disk.{
  create_directory, File, Node, directory, file, Disk, Host, file_size, get_pos_len, get_content,
  read_at, set_content, is_directory, access_time,
}

-- Writing `n` bytes to `p` succeeds in full.
pub record Writable (h : Host) (p : Text) (n : ℕ) (d : Disk) : Type 0 where
  pub opens : h.can_write p ≡ true
  pub free : d.nodes p ≢ some directory
  pub fits : n ≤ h.room p

-- The node is a file with this content.
abbrev pub Holds : Disk → Text → Text → Type 0
Holds d p s = (f : File) × (d.nodes p ≡ some (file f)) × (f.content ≡ s)

-- All paths but one have the same nodes.
abbrev pub SameBut : Text → Disk → Disk → Type 0
SameBut p d d' = (q : Text) → q ≢ p → d'.nodes q ≡ d.nodes q

pub not-is_directory : (n : Option Node) → n ≢ some directory → is_directory n ≡ false
unfolding is_directory
not-is_directory none h = refl
not-is_directory (some directory) h = absurd (h refl)
not-is_directory (some (file f)) h = refl

text_ne : (p q : Text) → q ≢ p → text_eq p q ≡ false
text_ne p q h = elim (Bool-cases (text_eq p q)) [
  | inl e ↦ absurd (h (sym ((text_eq_iff p q).0 e)))
  | inr e ↦ e
]

-- A write that succeeds leaves the file with the bytes written, and every other path as it was.
pub set_content-Holds :
    (h : Host) (p s : Text) (d : Disk)
    → Writable h p (length s) d
    → let (done, d') = set_content h p s d in
      (done ≡ true) × Holds d' p s × SameBut p d d' × (d'.now ≡ d.now)
unfolding set_content
set_content-Holds h p s d w =
    rw (w.opens, not-is_directory (d.nodes p) w.free)
      (
        refl,
        (
          record {
            content = take (h.room p) s;
            mtime = d.now;
            atime = access_time (d.nodes p) d.now;
          },
          rw (text_eq_refl p),
          take_of_le (h.room p) s w.fits,
        ),
        (λ q ne. rw (text_ne p q ne)),
        refl,
      )

-- A write leaves the clock as it is.
pub set_content-now : (h : Host) (p s : Text) (d : Disk) → (set_content h p s d).1.now ≡ d.now
unfolding set_content
set_content-now h p s d = ground arith

pub create_directory-now : (p : Text) (d : Disk) → (create_directory p d).now ≡ d.now
unfolding create_directory
create_directory-now p d = ground arith

-- A new directory changes no other path.
pub create_directory-SameBut : (p : Text) (d : Disk) → SameBut p d (create_directory p d)
unfolding create_directory
create_directory-SameBut p d q ne = ground (arith, text_ne p q ne)

-- For a file and a range whose end does not wrap, GetPosLen gives the bytes of the range exactly
-- if the range lies inside the file and the file can be opened.
pub get_pos_len-some :
    (h : Host) (p s : Text) (pos len : ℕ) (d : Disk)
    → Holds d p s
    → pos + len < size_mod
    → (get_pos_len h p pos len d ≡ some (take len (drop pos s)))
      ↔ ((pos + len ≤ length s) × (h.can_read p ≡ true))
unfolding get_pos_len read_at file_size
get_pos_len-some h p s pos len d (f, at, e) k =
    rw (at, e) (ground (arith, length-take len (drop pos s), length-drop pos s))

-- A file is read back whole.
pub get_content-Holds :
    (h : Host) (p s : Text) (d : Disk)
    → Holds d p s
    → length s < size_mod
    → h.can_read p ≡ true
    → get_content h p d ≡ some s
unfolding get_content file_size
get_content-Holds h p s d (f, at, e) k r =
    let size : file_size h p d ≡ length s = ground arith in
    rw size (
      (get_pos_len-some h p s 0 (length s) d (f, at, e) (omega arith)).1 (omega arith, r)
      ∙ ap some (take_of_le (length s) s (omega arith)))
