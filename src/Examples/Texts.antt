-- ===== src/Examples/Texts.antt =====
-- The texts and lists of texts of the codecs.
use stream_hive.Common.{
  ℕ, zero, suc, ◌≡◌, refl, List, [], ◌∷◌, length, take, drop, take-append, drop-append,
}
use stream_hive.Common.Bytes.{Bytes}
use stream_hive.Examples.Codec.{put_text}

-- the front and the rest of a text behind its length
abbrev pub front : List ℕ → Bytes
front [] = []
front (n ∷ xs) = take n xs

abbrev pub rest_of : List ℕ → List ℕ
rest_of [] = []
rest_of (n ∷ xs) = drop n xs

abbrev pub put_texts : List Bytes → List ℕ
put_texts [] = []
put_texts (t ∷ ts) = put_text t (put_texts ts)

abbrev pub get_texts : ℕ → List ℕ → List Bytes
get_texts zero xs = []
get_texts (suc n) xs = front xs ∷ get_texts n (rest_of xs)

pub get_texts-put_texts : (ts : List Bytes) → get_texts (length ts) (put_texts ts) ≡ ts
get_texts-put_texts [] = refl
get_texts-put_texts (t ∷ ts) = simp (take-append, drop-append, get_texts-put_texts ts)
