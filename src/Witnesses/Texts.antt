-- ===== src/Witnesses/Texts.antt =====
-- Keys, index values and headers of concrete texts.
use zipstash.Base.{◌≡◌, ◌≢◌, refl, true, false, [], Text, codes, text_eq, eq→text_eq}
use zipstash.GoStd.CleanPath.{slash, dot_dot, one_dot}
use zipstash.GoStd.CleanPath.Plain.{IsPlain}
use zipstash.GoStd.Words.{is_space, IsUnspaced}
use zipstash.Keys.{build_cache_key}
use zipstash.Keys.CacheKey.{
  ArePlain, ArePlainParents, climb_out, build_cache_key_injective, build_cache_key-climb_out,
}
use zipstash.Witnesses.World.{Lacks-if, no_byte}

pub text_ne : (s t : Text) → text_eq s t ≡ false → s ≢ t
text_ne s t h e = let same : text_eq s t ≡ true = eq→text_eq s t e in cc

pub IsPlain-if :
    (s : Text)
    → no_byte slash s ≡ true
    → text_eq s [] ≡ false
    → text_eq s one_dot ≡ false
    → text_eq s dot_dot ≡ false
    → IsPlain s
IsPlain-if s h1 h2 h3 h4 = record {
  not_empty = text_ne s [] h2;
  no_slash = Lacks-if slash s h1;
  not_dot = text_ne s one_dot h3;
  not_dot_dot = text_ne s dot_dot h4;
}

octo_parents : ArePlainParents (codes "octo") (codes "gitlab") (codes "linux") (codes "arm64")
unfolding codes no_byte text_eq
octo_parents = record {
  owner_plain = IsPlain-if (codes "octo") refl refl refl refl;
  provider_plain = IsPlain-if (codes "gitlab") refl refl refl refl;
  os_plain = IsPlain-if (codes "linux") refl refl refl refl;
  arch_plain = IsPlain-if (codes "arm64") refl refl refl refl;
}

octo_plain : ArePlain (codes "octo") (codes "gitlab") (codes "linux") (codes "arm64") (codes "k1")
unfolding codes no_byte text_eq
octo_plain = record {
  owner_plain = IsPlain-if (codes "octo") refl refl refl refl;
  provider_plain = IsPlain-if (codes "gitlab") refl refl refl refl;
  os_plain = IsPlain-if (codes "linux") refl refl refl refl;
  arch_plain = IsPlain-if (codes "arm64") refl refl refl refl;
  key_plain = IsPlain-if (codes "k1") refl refl refl refl;
}

build_cache_key_injective_example :
    (codes "octo" ≡ codes "octo")
    × (codes "gitlab" ≡ codes "gitlab")
    × (codes "linux" ≡ codes "linux")
    × (codes "arm64" ≡ codes "arm64")
    × (codes "k1" ≡ codes "k1")
build_cache_key_injective_example =
    build_cache_key_injective (codes "octo") (codes "gitlab") (codes "linux") (codes "arm64")
      (codes "k1") (codes "octo") (codes "gitlab") (codes "linux") (codes "arm64") (codes "k1")
      octo_plain octo_plain refl

build_cache_key-climb_out_example :
    build_cache_key (codes "octo") (codes "gitlab") (codes "linux") (codes "arm64") (
      climb_out (
        build_cache_key
          (codes "octo")
          (codes "gitlab")
          (codes "linux")
          (codes "arm64")
          (codes "k1")))
    ≡ build_cache_key (codes "octo") (codes "gitlab") (codes "linux") (codes "arm64") (codes "k1")
build_cache_key-climb_out_example =
    build_cache_key-climb_out (codes "octo") (codes "gitlab") (codes "linux") (codes "arm64")
      (codes "octo") (codes "gitlab") (codes "linux") (codes "arm64") (codes "k1") octo_parents
      octo_plain

token-IsUnspaced : IsUnspaced (codes "eyJ.a-b")
unfolding codes is_space
token-IsUnspaced = (refl, (refl, (refl, (refl, (refl, (refl, (refl, tt)))))))
