-- ===== src/Directory/Tests.antt =====
-- A small catalog and a company, and the properties applied to them.
use corpershub_application.Base.{
  [], refl, none, some, true, List, ◌≡◌, ◌∷◌, codes, trim, is_space, drop_while, drop_end,
}
use corpershub_application.Dropdown.Values.{is_option}
use corpershub_application.Identifiers.Sample.{ascii}
use corpershub_application.Directory.{
  CourseCatalogField, get_company_directory_image, resolve_media_url, get_company_monogram,
  split_on, without_api, without_slash,
}
use corpershub_application.Directory.Images.{IsPicture, get_company_directory_image-IsPicture}

monogram_test : get_company_monogram ascii (codes "acme  bank plc") ≡ codes "AB"
unfolding get_company_monogram split_on trim is_space drop_while drop_end
monogram_test = refl

media_test :
    resolve_media_url none (some (codes "media/a.png"))
    ≡ some (codes "http://localhost:8000/media/a.png")
unfolding resolve_media_url without_api without_slash trim is_space drop_while drop_end
media_test = refl

abbrev catalog : List CourseCatalogField
catalog =
    record {
      name = codes "Science";
      categories =
          record {
            name = codes "Computing";
            courses = record { name = codes "Physics" } ∷ record { name = codes "Chemistry" } ∷ [];
          }
          ∷ [];
    }
    ∷ []

law_known : is_option (codes "Law") ≡ true
unfolding trim is_space drop_while drop_end
law_known = refl

get_company_directory_image-IsPicture_example :
    IsPicture (resolve_media_url none (some (codes " "))) (codes "/a.jpg" ∷ codes "/b.jpg" ∷ []) (
      get_company_directory_image none
        (codes "/a.jpg" ∷ codes "/b.jpg" ∷ [])
        (codes "c7")
        (some (codes " ")))
get_company_directory_image-IsPicture_example =
    get_company_directory_image-IsPicture none (codes "/a.jpg" ∷ codes "/b.jpg" ∷ []) (codes "c7")
      (some (codes " "))
