-- ===== src/Parser/Cached.antt =====
-- `parse` (src/parser.cpp) as a whole: the binary cache is read where it is newer than the manifest,
-- and it is written when a manifest was read.
use catalyst_build_executor.Base.{
  ℕ, ◌≤◌, ◌<◌, ◌≡◌, refl, ap, ◌∙◌, subst, Bool, true, false, Bytes, Option, none, some, length,
  arith, ltb, if◌then◌else◌,
}
use catalyst_build_executor.Domain.{
  FileSystem, FileView, absent, unreadable, file, Result, ok, thrown, ◌>>=◌, >>=-eq-ok, cannot_map,
}
use catalyst_build_executor.Builder.{Builder, empty_builder}
use catalyst_build_executor.Parser.{parse_manifest}
use catalyst_build_executor.Binary.Format.{uint64_max}
use catalyst_build_executor.Binary.Reader.{bin_path, parse_bin}
use catalyst_build_executor.Binary.Writer.{emit_bin}
use catalyst_build_executor.Binary.Reload.{Reloaded}
use catalyst_build_executor.Binary.Cache.{parse_bin-manifest}

-- `std::filesystem::exists`
abbrev pub exists : FileView → Bool
exists absent = false
exists unreadable = true
exists (file content) = true

-- `last_write_time` without an error code: it throws where there is no time.
abbrev pub last_write_time : (Bytes → Option ℕ) → Bytes → Result ℕ
last_write_time mtime path = elim (mtime path) [ none ↦ thrown (cannot_map path) | some t ↦ ok t ]

abbrev pub uses_cache : FileSystem → (Bytes → Option ℕ) → Bytes → Result Bool
uses_cache fs mtime path =
    if exists (fs bin_path)
    then (last_write_time mtime bin_path >>= λ t. last_write_time mtime path >>= λ u. ok (ltb u t))
    else ok false

-- `auto _ = emit_bin(builder)`: the bytes that are written, if the file could be opened.
abbrev pub cache_file : (can_write : Bool) → Builder → Option Bytes
cache_file can_write b = if can_write then some (emit_bin b) else none

-- What is done when it is known whether the cache is used.
unfoldable pub parse_from :
    FileSystem
    → (can_write : Bool) → Bytes
    → Builder
    → (cached : Bool) → Result (Builder × Option Bytes)
parse_from fs can_write path b true = parse_bin fs b >>= λ b'. ok (b', none)
parse_from fs can_write path b false =
    parse_manifest fs path b >>= λ b'. ok (b', cache_file can_write b')

-- `parse`: the builder, and the cache that was written.
unfoldable pub parse :
    FileSystem
    → (mtime : Bytes → Option ℕ) → (can_write : Bool) → Bytes
    → Builder
    → Result (Builder × Option Bytes)
parse fs mtime can_write path b =
    uses_cache fs mtime path >>= λ cached. parse_from fs can_write path b cached

parse_from-written :
    (fs : FileSystem) (can_write cached : Bool) (path content : Bytes) (b : Builder)
    → parse_from fs can_write path empty_builder cached ≡ ok (b, some content)
    → (parse_manifest fs path empty_builder ≡ ok b) × (content ≡ emit_bin b)
unfolding parse_from
parse_from-written fs can_write true path content b e =
    let (b', reads, same) = >>=-eq-ok (parse_bin fs empty_builder) _ e in cc
parse_from-written fs can_write false path content b e =
    let (b', reads, same) = >>=-eq-ok (parse_manifest fs path empty_builder) _ e in
    cache_file-written can_write b' b content reads same
  where
    cache_file-written :
        (can_write : Bool) (b' b : Builder) (content : Bytes)
        → parse_manifest fs path empty_builder ≡ ok b'
        → ◌≡◌ {A = Result (Builder × Option Bytes)}
            (ok (b', cache_file can_write b'))
            (ok (b, some content))
        → (parse_manifest fs path empty_builder ≡ ok b) × (content ≡ emit_bin b)
    cache_file-written true b' b content reads same = (cc, cc)
    cache_file-written false b' b content reads same = (cc, cc)

-- A cache is written only when the manifest was read.
pub parse-written :
    (fs : FileSystem) (mtime : Bytes → Option ℕ) (can_write : Bool) (path content : Bytes)
    (b : Builder)
    → parse fs mtime can_write path empty_builder ≡ ok (b, some content)
    → parse_manifest fs path empty_builder ≡ ok b
unfolding parse
parse-written fs mtime can_write path content b e =
    let (cached, decided, rest) = >>=-eq-ok (uses_cache fs mtime path) _ e in
    (parse_from-written fs can_write cached path content b rest).0

uses_cache-newer :
    (fs : FileSystem) (mtime : Bytes → Option ℕ) (path content : Bytes) (t u : ℕ)
    → fs bin_path ≡ file content
    → mtime bin_path ≡ some t
    → mtime path ≡ some u
    → u < t
    → uses_cache fs mtime path ≡ ok true
uses_cache-newer fs mtime path content t u found cache_time text_time newer = rw found (
    ap (λ r. r >>= λ t. last_write_time mtime path >>= λ u. ok (ltb u t))
      (let e : last_write_time mtime bin_path ≡ ok t = rw (cache_time, last_write_time) refl in e)
    ∙ ap (λ r. r >>= λ u. ok (ltb u t))
        (let e : last_write_time mtime path ≡ ok u = rw (text_time, last_write_time) refl in e)
    ∙ ap ok (let e : ltb u t ≡ true = ground arith in e))

-- A second run that finds the cache of the first one, newer than the manifest, gets from it the
-- definitions, nodes, edges and producers of the first run, and the steps without their opaque
-- inputs; and it writes no cache. The file of the cache is shorter than 2 ^ 64 bytes.
pub parse_twice :
    (fs fs' : FileSystem) (mtime mtime' : Bytes → Option ℕ) (can_write : Bool)
    (path content : Bytes) (b : Builder) (t u : ℕ)
    → parse fs mtime can_write path empty_builder ≡ ok (b, some content)
    → fs' bin_path ≡ file content
    → mtime' bin_path ≡ some t
    → mtime' path ≡ some u
    → u < t
    → length content ≤ uint64_max
    → (b' : Builder) × (parse fs' mtime' can_write path empty_builder ≡ ok (b', none))
      × Reloaded b b'
unfolding parse parse_from
parse_twice fs fs' mtime mtime' can_write path content b t u first found cache_time text_time newer
      small =
    let (cached, decided, rest) = >>=-eq-ok (uses_cache fs mtime path) _ first in
    let (parsed, same) = parse_from-written fs can_write cached path content b rest in
    let (b', reads, back) =
      parse_bin-manifest fs fs' path b parsed (found ∙ ap file same)
        (subst (λ c. length c ≤ uint64_max) same small) in
    (
      b',
      ap (λ r. r >>= parse_from fs' can_write path empty_builder)
            (uses_cache-newer fs' mtime' path content t u found cache_time text_time newer)
          ∙ ap (λ r. r >>= λ x. ok (x, none)) reads,
      back,
    )
