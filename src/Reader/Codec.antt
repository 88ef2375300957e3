-- ===== src/Reader/Codec.antt =====
-- The encoding of a bookmark: EncodeBookmark and DecodeBookmark of
-- components/note4_reader/note4_reader_bookmarks.cc.
use zectrix_note4_platform.Base.{
  Bool, Bool-cases, List, Option, [], all, ap, arith, drop, false, get_or, if◌then◌else◌, inl, inr,
  le16, le32, length, ltb, none, not, of_le16, refl, replicate, some, subst, take, take-length,
  true, u32_mod, ℕ, ◌%◌, ◌&&◌, ◌*◌, ◌++◌, ◌+◌, ◌-◌, ◌/◌, ◌<◌, ◌==◌, ◌||◌, ◌∙◌, ◌∷◌, ◌≡◌, ◌≤◌,
}
use zectrix_note4_platform.Reader.{Bookmark, FontSize, same_id}

-- The characters in front of the first that is zero.
abbrev pub until_nul : List ℕ → List ℕ
until_nul [] = []
until_nul (c ∷ cs) = if c == 0 then [] else c ∷ until_nul cs

-- No file of that name leaves its directory: neither "." nor "..", no '/' and no '\'.
unfoldable pub valid_id : List ℕ → Bool
valid_id id =
    not (length id == 0 || ltb 63 (length id) || same_id id (46 ∷ []) || same_id id (46 ∷ 46 ∷ []))
    && all (λ c. not (ltb c 0x20 || c == 47 || c == 92)) id

abbrev pub font_byte : FontSize → ℕ
font_byte FontSize.small = 0
font_byte FontSize.large = 1

abbrev pub font_of : ℕ → FontSize
font_of byte = if byte == 0 then FontSize.small else FontSize.large

abbrev pub bookmark_bytes : Bookmark → List ℕ → List ℕ
bookmark_bytes mark id =
    (1 ∷ font_byte mark.font ∷ le16 mark.position.chapter)
    ++ le32 mark.position.offset
    ++ le32 mark.source_bytes
    ++ le16 mark.progress_per_mille
    ++ (length id % 256 ∷ id)

-- Neither pointer is null, and the font is one of the two by its type.
unfoldable pub encode_bookmark : Bookmark → ℕ → Option (List ℕ)
encode_bookmark mark space =
    let id = until_nul mark.book_id in
    if not (valid_id id) || ltb space (15 + length id) || ltb 1000 mark.progress_per_mille
    then none
    else some (bookmark_bytes mark id)

abbrev pub byte_at : List ℕ → ℕ → ℕ
byte_at bs i = get_or bs i 0

abbrev pub u16_at : List ℕ → ℕ → ℕ
u16_at bs i = of_le16 (byte_at bs i) (byte_at bs (i + 1))

abbrev pub u32_at : List ℕ → ℕ → ℕ
u32_at bs i = u16_at bs i + u16_at bs (i + 2) * 65536

-- A name in the array of 64 characters, which starts as zeros.
abbrev pub padded : List ℕ → List ℕ
padded id = id ++ replicate (64 - length id) 0

unfoldable pub decode_bookmark : List ℕ → Option Bookmark
decode_bookmark input =
    let size = length input in
    let count = byte_at input 14 in
    let id = take count (drop 15 input) in
    if ltb size 16
      || not (byte_at input 0 == 1)
      || ltb 1 (byte_at input 1)
      || not (size == 15 + count)
      || not (valid_id id)
      || ltb 1000 (u16_at input 12)
    then none
    else some (record {
      book_id = padded id;
      source_bytes = u32_at input 8;
      position = record { offset = u32_at input 4; chapter = u16_at input 2 };
      font = font_of (byte_at input 1);
      progress_per_mille = u16_at input 12;
    })

-- The fields fit in their types.
pub record IsBookmark (m : Bookmark) : Type 0 where
  pub offset_word : m.position.offset < u32_mod
  pub chapter_word : m.position.chapter < 65536
  pub bytes_word : m.source_bytes < u32_mod
  pub progress_word : m.progress_per_mille < 65536

valid_id-length : (id : List ℕ) → valid_id id ≡ true → (0 < length id) × (length id < 64)
unfolding valid_id
valid_id-length id h = (ground arith, ground arith)

le32-of :
    (n : ℕ)
    → n < u32_mod
    → n % 256 + n / 256 % 256 * 256 + (n / 65536 % 256 + n / 16777216 % 256 * 256) * 65536 ≡ n
le32-of n h = omega arith

le16-of : (n : ℕ) → n < 65536 → n % 256 + n / 256 % 256 * 256 ≡ n
le16-of n h = omega arith

font_of-font_byte : (f : FontSize) → font_of (font_byte f) ≡ f
font_of-font_byte FontSize.small = refl
font_of-font_byte FontSize.large = refl

font_byte-le : (f : FontSize) → ltb 1 (font_byte f) ≡ false
font_byte-le FontSize.small = refl
font_byte-le FontSize.large = refl

-- What a bookmark becomes: all but the characters behind the first zero.
abbrev pub canonical : Bookmark → Bookmark
canonical m = record m { book_id = padded (until_nul m.book_id) }

decode-parts :
    (f c d o1 o2 o3 o4 s1 s2 s3 s4 p q n : ℕ) (id : List ℕ)
    → ltb 1 f ≡ false
    → n ≡ length id
    → valid_id id ≡ true
    → p + q * 256 ≤ 1000
    → decode_bookmark (1 ∷ f ∷ c ∷ d ∷ o1 ∷ o2 ∷ o3 ∷ o4 ∷ s1 ∷ s2 ∷ s3 ∷ s4 ∷ p ∷ q ∷ n ∷ id)
      ≡ some (record {
        book_id = padded id;
        source_bytes = s1 + s2 * 256 + (s3 + s4 * 256) * 65536;
        position = record {
          offset = o1 + o2 * 256 + (o3 + o4 * 256) * 65536;
          chapter = c + d * 256;
        };
        font = font_of f;
        progress_per_mille = p + q * 256;
      })
unfolding decode_bookmark
decode-parts f c d o1 o2 o3 o4 s1 s2 s3 s4 p q n id font counted valid within =
    let taken : take n id ≡ id = ap (λ k. take k id) counted ∙ take-length id in
    let bounds = valid_id-length id valid in rw (font, taken, valid) (ground arith)

decode-bytes :
    (m : Bookmark)
    → IsBookmark m
    → valid_id (until_nul m.book_id) ≡ true
    → m.progress_per_mille ≤ 1000
    → decode_bookmark (bookmark_bytes m (until_nul m.book_id)) ≡ some (canonical m)
unfolding decode_bookmark
decode-bytes m b valid within =
    let id = until_nul m.book_id in
    let bounds = valid_id-length id valid in
    let source = le32-of m.source_bytes b.bytes_word in
    let offset = le32-of m.position.offset b.offset_word in
    let chapter = le16-of m.position.chapter b.chapter_word in
    let progress = le16-of m.progress_per_mille b.progress_word in
    let font = font_of-font_byte m.font in
    decode-parts _ _ _ _ _ _ _ _ _ _ _ _ _ (length id % 256) id (font_byte-le m.font) (omega arith)
      valid (omega (arith, progress))
    ∙ (λ i. some (record {
      book_id = padded id;
      source_bytes = source i;
      position = record { offset = offset i; chapter = chapter i };
      font = font i;
      progress_per_mille = progress i;
    }))

-- A bookmark with fields in range that EncodeBookmark takes fits in the buffer and in the 78 bytes
-- reserved for one, and DecodeBookmark gives it back, its identity padded with zeros.
pub encode-decode_bookmark :
    (m : Bookmark) (space : ℕ) (bs : List ℕ)
    → IsBookmark m
    → encode_bookmark m space ≡ some bs
    → (length bs ≤ space) × (length bs ≤ 78) × (decode_bookmark bs ≡ some (canonical m))
unfolding encode_bookmark
encode-decode_bookmark m space bs b encoded =
    let id = until_nul m.book_id in
    elim (Bool-cases
      (not (valid_id id) || ltb space (15 + length id) || ltb 1000 m.progress_per_mille)) [
        | inl refused ↦ absurd (let none_is : none ≡ some bs = rw refused at encoded in cc none_is)
        | inr taken ↦
            let valid : valid_id id ≡ true = ground arith in
            let bounds = valid_id-length id valid in
            let same : bookmark_bytes m id ≡ bs =
              (let some_is : some (bookmark_bytes m id) ≡ some bs = rw taken at encoded in
                cc some_is) in
            (
              subst (λ x. length x ≤ space) same (ground arith),
              subst (λ x. length x ≤ 78) same (ground arith),
              subst (λ x. decode_bookmark x ≡ some (canonical m)) same
                  (decode-bytes m b valid (ground arith)),
            )
      ]
