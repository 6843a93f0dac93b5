-- ===== src/Fuse/Policy/Slices.antt =====
-- A read is a slice of the file's whole content, real or simulated.
use snapshot_fs.Prelude.{
  ℕ, zero, suc, ◌+◌, ◌-◌, ◌≤◌, ◌≡◌, refl, sym, ◌∙◌, ap, Bool, true, false, Option, none, some, List,
  [], ◌∷◌, ◌++◌, ℤ, pos, negsuc, Bytes, ok, err, ok-injective, ap₂, some-injective, arith,
  if◌then◌else◌, leb, ◌==◌, min, length, take, drop, replicate, length-replicate, Bool-cases, inl,
  inr,
}
use snapshot_fs.Model.Enums.{NodeKind, ContentStatus}
use snapshot_fs.Model.Entry.{wrong_length}
use snapshot_fs.Model.Node.{Node}
use snapshot_fs.Fuse.Policy.{Errno, past_end, simulated, read_content, read_node, read_kind}

module _ {ℓ} {A : Type ℓ} where
  drop-past : (o : ℕ) (xs : List A) → length xs ≤ o → drop o xs ≡ []
  drop-past zero [] h = refl
  drop-past zero (x ∷ xs) h = absurd (omega arith)
  drop-past (suc o) [] h = refl
  drop-past (suc o) (x ∷ xs) h = drop-past o xs (omega arith)

  take-nil : (n : ℕ) → take {A = A} n [] ≡ []
  take-nil zero = refl
  take-nil (suc n) = refl

  same_replicate : (m n : ℕ) (a : A) → m ≡ n → replicate m a ≡ replicate n a
  same_replicate m n a e = ap (λ k. replicate k a) e

  same_take : (m n : ℕ) (xs : List A) → m ≡ n → take m xs ≡ take n xs
  same_take m n xs e = ap (λ k. take k xs) e

  drop-replicate : (o n : ℕ) (a : A) → drop o (replicate n a) ≡ replicate (n - o) a
  drop-replicate zero n a = same_replicate n (n - 0) a (omega arith)
  drop-replicate (suc o) zero a = same_replicate 0 (0 - suc o) a (omega arith)
  drop-replicate (suc o) (suc n) a =
      drop-replicate o n a ∙ same_replicate (n - o) (suc n - suc o) a (omega arith)

  take-replicate : (k n : ℕ) (a : A) → take k (replicate n a) ≡ replicate (min k n) a
  take-replicate zero n a = same_replicate 0 (min 0 n) a (omega arith)
  take-replicate (suc k) zero a = same_replicate 0 (min (suc k) 0) a (omega arith)
  take-replicate (suc k) (suc n) a =
      ap (λ l. a ∷ l) (take-replicate k n a)
      ∙ same_replicate (suc (min k n)) (min (suc k) (suc n)) a (omega arith)

  take-add-drop : (a b : ℕ) (xs : List A) → take a xs ++ take b (drop a xs) ≡ take (a + b) xs
  take-add-drop zero b xs = same_take b (0 + b) xs (omega arith)
  take-add-drop (suc a) b [] = take-nil b ∙ sym (take-nil (suc a + b))
  take-add-drop (suc a) b (x ∷ xs) =
      ap (λ l. x ∷ l) (take-add-drop a b xs)
      ∙ same_take (suc (a + b)) (suc a + b) (x ∷ xs) (omega arith)

-- The zeros of a missing file, if it has a size.
zeros_of : ContentStatus → Option ℤ → Option Bytes
zeros_of ContentStatus.missing (some (pos n)) = some (replicate n 0)
zeros_of _ _ = none

whole_of : Option Bytes → Option ℤ → ContentStatus → Bool → Option Bytes
unfolding zeros_of
whole_of (some bytes) size status simulate = some bytes
whole_of none size status true = zeros_of status size
whole_of none size status false = none

-- The bytes of which every read is a slice, if there are any.
unfoldable pub whole : Node → Bool → Option Bytes
unfolding whole_of
whole n simulate = whole_of n.content n.size n.content_status simulate

read_inline :
    (bytes : Bytes) (size : Option ℤ) (status : ContentStatus) (off k : ℕ) (simulate : Bool)
    → wrong_length (some bytes) size ≡ false
    → read_content (some bytes) size status off k simulate ≡ ok (take k (drop off bytes))
unfolding read_content past_end wrong_length
read_inline bytes none status off k simulate h = cc
read_inline bytes (some (negsuc n)) status off k simulate h = cc
read_inline bytes (some (pos n)) status off k simulate h = elim (Bool-cases (leb n off)) [
  | inl past ↦ rw (past, drop-past off bytes (ground arith), take-nil {A = ℕ} k) refl
  | inr inside ↦ rw inside refl
]

read_zeros :
    (n off k : ℕ)
    → read_content none (some (pos n)) ContentStatus.missing off k true
      ≡ ok (take k (drop off (replicate n 0)))
unfolding read_content past_end simulated
read_zeros n off k = elim (Bool-cases (leb n off)) [
  | inl past ↦
      rw
        (
          past,
          drop-past {A = ℕ} off (replicate n 0) (ground (arith, length-replicate {A = ℕ} n 0)),
          take-nil {A = ℕ} k,
        )
        refl
  | inr inside ↦
      rw (inside, drop-replicate {A = ℕ} off n 0, take-replicate {A = ℕ} k (n - off) 0) refl
]

zeros_of-some :
    (status : ContentStatus) (size : Option ℤ) (bytes : Bytes)
    → zeros_of status size ≡ some bytes
    → (n : ℕ) × (status ≡ ContentStatus.missing) × (size ≡ some (pos n)) × (bytes ≡ replicate n 0)
unfolding zeros_of
zeros_of-some ContentStatus.missing (some (pos n)) bytes h = (n, refl, refl, ground arith)
zeros_of-some _ none bytes h = absurd (ground arith)
zeros_of-some _ _ bytes h = absurd (ground arith)

read_simulated :
    (bytes : Bytes) (size : Option ℤ) (status : ContentStatus) (off k : ℕ)
    → zeros_of status size ≡ some bytes
    → read_content none size status off k true ≡ ok (take k (drop off bytes))
read_simulated bytes size status off k h =
    let (n, is_missing, sized, zeros) = zeros_of-some status size bytes h in
    rw (is_missing, sized, zeros) (read_zeros n off k)

read_whole :
    (content : Option Bytes) (size : Option ℤ) (status : ContentStatus) (off k : ℕ)
    (simulate : Bool) (bytes : Bytes)
    → wrong_length content size ≡ false
    → whole_of content size status simulate ≡ some bytes
    → read_content content size status off k simulate ≡ ok (take k (drop off bytes))
unfolding whole_of
read_whole (some content) size status off k simulate bytes valid h =
    read_inline content size status off k simulate valid
    ∙ ap (λ l. ok (take k (drop off l))) (some-injective _ _ h)
read_whole none size status off k true bytes valid h = read_simulated bytes size status off k h
read_whole none size status off k false bytes valid h = cc

read_node-file :
    (n : Node) (off k : ℕ) (simulate : Bool)
    → n.kind ≡ NodeKind.file
    → read_node n (pos off) (pos k) simulate
      ≡ (if k == 0 then ok [] else read_content n.content n.size n.content_status off k simulate)
unfolding read_node read_kind
read_node-file n off k simulate e = ap (λ kind. read_kind kind n (pos off) (pos k) simulate) e

not_zero {ℓ} : {A : Type ℓ} (k : ℕ) (x y : A) → (if suc k == 0 then x else y) ≡ y
not_zero k x y = elim (Bool-cases (suc k == 0)) [
  | inl wrong ↦ absurd (ground arith)
  | inr right ↦ rw right
]

-- If a node is a file whose content, when it has one, is as long as its size, and it has
-- content or simulated content, then every read at an offset is that slice of the content.
pub read_node-slice :
    (n : Node) (off k : ℕ) (simulate : Bool) (bytes : Bytes)
    → n.kind ≡ NodeKind.file
    → wrong_length n.content n.size ≡ false
    → whole n simulate ≡ some bytes
    → read_node n (pos off) (pos k) simulate ≡ ok (take k (drop off bytes))
unfolding whole
read_node-slice n off zero simulate bytes kind valid h = read_node-file n off 0 simulate kind
read_node-slice n off (suc k) simulate bytes kind valid h =
    read_node-file n off (suc k) simulate kind
    ∙ not_zero k _ _
    ∙ read_whole n.content n.size n.content_status off (suc k) simulate bytes valid h

same_drop {ℓ} : {A : Type ℓ} (m n : ℕ) (xs : List A) → m ≡ n → drop m xs ≡ drop n xs
same_drop m n xs e = ap (λ k. drop k xs) e

drop-nil {ℓ} : {A : Type ℓ} (n : ℕ) → drop {A = A} n [] ≡ []
drop-nil zero = refl
drop-nil (suc n) = refl

drop-add {ℓ} : {A : Type ℓ} (a b : ℕ) (xs : List A) → drop (a + b) xs ≡ drop b (drop a xs)
drop-add zero b xs = same_drop (0 + b) b xs (omega arith)
drop-add (suc a) b [] = drop-nil (suc a + b) ∙ sym (drop-nil b)
drop-add (suc a) b (x ∷ xs) =
    same_drop (suc a + b) (suc (a + b)) (x ∷ xs) (omega arith) ∙ drop-add a b xs

-- If a node is a file whose content, when it has one, is as long as its size, and it has
-- content or simulated content, then a read followed by a read where the first was to end
-- give the bytes of one read of both lengths.
pub read_node-chunks :
    (n : Node) (off a b : ℕ) (simulate : Bool) (bytes first second : Bytes)
    → n.kind ≡ NodeKind.file
    → wrong_length n.content n.size ≡ false
    → whole n simulate ≡ some bytes
    → read_node n (pos off) (pos a) simulate ≡ ok first
    → read_node n (pos (off + a)) (pos b) simulate ≡ ok second
    → read_node n (pos off) (pos (a + b)) simulate ≡ ok (first ++ second)
read_node-chunks n off a b simulate bytes first second kind valid h p q =
    let slice = λ (o k : ℕ). read_node-slice n o k simulate bytes kind valid h in
    let is_first = ok-injective (sym (slice off a) ∙ p) in
    let is_second = ok-injective (sym (slice (off + a) b) ∙ q) in
    slice off (a + b)
    ∙ ap ok (
        sym (take-add-drop a b (drop off bytes))
        ∙ ap₂ ◌++◌ is_first (ap (take b) (sym (drop-add off a bytes)) ∙ is_second))

read_none :
    (content : Option Bytes) (size : Option ℤ) (status : ContentStatus) (off k : ℕ)
    (simulate : Bool)
    → whole_of content size status simulate ≡ none
    → past_end size off ≡ false
    → read_content content size status off k simulate ≡ err Errno.enodata
unfolding whole_of read_content
read_none (some bytes) size status off k simulate h inside = cc
read_none none size status off k false h inside = rw inside
read_none none none status off k true h inside = ground arith
read_none none (some (negsuc n)) status off k true h inside = ground arith
read_none none (some (pos n)) status off k true h inside = ground arith

-- If a node is a file without content, real or simulated, then a read of at least one byte
-- at an offset that is not past its size is ENODATA.
pub read_node-missing :
    (n : Node) (off k : ℕ) (simulate : Bool)
    → n.kind ≡ NodeKind.file
    → whole n simulate ≡ none
    → past_end n.size off ≡ false
    → read_node n (pos off) (pos (suc k)) simulate ≡ err Errno.enodata
unfolding whole
read_node-missing n off k simulate kind h inside =
    read_node-file n off (suc k) simulate kind
    ∙ not_zero k _ _
    ∙ read_none n.content n.size n.content_status off (suc k) simulate h inside
