-- ===== src/Fleet/Tests.antt =====
-- A scrape of the cluster in memory, with and without its rotations.
use private_pki_operator.Common.{String, ◌≡◌, refl, some, none, [], ◌∷◌, count}
use private_pki_operator.Action.{errorf, text, ok, err}
use private_pki_operator.Api.{idle}
use private_pki_operator.Cluster.{Client, Certificate}
use private_pki_operator.Cluster.Memory.{World, memory}
use private_pki_operator.Controller.Example.{world, rotation}
use private_pki_operator.Fleet.{certificates, rotations, collect, intermediate, tier_string}
use private_pki_operator.Fleet.Census.{
  gauge, scraping, RoleSeries, CertificateOutcome, collect-series, collect-demotes,
}

-- A cache that has the rotation.
abbrev cache : Client World
cache = record memory { list_pki_rotations = λ l w. (ok (w.rotation ∷ []), w) }

-- A cache that cannot list the rotations.
abbrev broken_cache : Client World
broken_cache = record memory {
  list_pki_rotations = λ l w. (err (errorf (text "no kind match" ∷ [])), w);
}

abbrev scraped : World
scraped = world idle

collect-series_example :
    RoleSeries (rotation idle ∷ []) (collect cache (scraping scraped)).1.sent
    × CertificateOutcome
        (rotation idle ∷ [])
        (ok scraped.certificates)
        (collect cache (scraping scraped)).1.sent
collect-series_example =
    collect-series cache scraped scraped scraped (rotation idle ∷ []) (ok scraped.certificates) refl
      refl

collect-demotes_example :
    ((role : String) → gauge rotations role (collect broken_cache (scraping scraped)).1.sent ≡ none)
    × (gauge certificates "root" (collect broken_cache (scraping scraped)).1.sent ≡ some 0)
    × (gauge certificates "intermediate" (collect broken_cache (scraping scraped)).1.sent
        ≡ some (count (λ (cert : Certificate). cert.is_ca) scraped.certificates))
collect-demotes_example =
    collect-demotes broken_cache scraped scraped scraped (errorf (text "no kind match" ∷ []))
      scraped.certificates refl refl

-- One root, one intermediate and one leaf; without the rotations the root is taken for a second
-- intermediate.
demoted :
    gauge certificates "intermediate" (collect broken_cache (scraping scraped)).1.sent ≡ some 2
demoted = collect-demotes_example.2

kept : gauge certificates "intermediate" (collect cache (scraping scraped)).1.sent ≡ some 1
unfolding tier_string
kept = collect-series_example.1.totals intermediate
