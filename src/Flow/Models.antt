-- ===== src/Flow/Models.antt =====
-- src/flow/models.go: the table of the models.
use Prim.Native.String.{String}
use business2api.Base.{
  ℕ, ◌≡◌, refl, Bool, true, false, ◌&&◌, List, [], ◌∷◌, Option, none, some, leb, map, arith,
}
use business2api.Text.{Text, codes, StringMap, find_entry}

pub data ModelType : Type 0 where
  type_image type_video : ModelType

pub data VideoType : Type 0 where
  no_video t2v i2v r2v : VideoType

pub record ModelConfig : Type 0 where
  pub model_type : ModelType
  pub model_name : Text
  pub model_key : Text
  pub aspect_ratio : Text
  pub video_type : VideoType
  pub supports_images : Bool
  pub min_images : ℕ
  pub max_images : ℕ

abbrev image : String → String → String → Text × ModelConfig
image key name ratio = (
  codes key,
  record {
    model_type = type_image;
    model_name = codes name;
    model_key = [];
    aspect_ratio = codes ratio;
    video_type = no_video;
    supports_images = false;
    min_images = 0;
    max_images = 0;
  },
)

abbrev video : String → VideoType → String → String → Bool → ℕ → ℕ → Text × ModelConfig
video name kind key ratio supports least most = (
  codes name,
  record {
    model_type = type_video;
    model_name = [];
    model_key = codes key;
    aspect_ratio = codes ratio;
    video_type = kind;
    supports_images = supports;
    min_images = least;
    max_images = most;
  },
)

unfoldable pub flow_model_config : StringMap ModelConfig
flow_model_config =
    image "gemini-2.5-flash-image-landscape" "GEM_PIX" "IMAGE_ASPECT_RATIO_LANDSCAPE"
    ∷ image "gemini-2.5-flash-image-portrait" "GEM_PIX" "IMAGE_ASPECT_RATIO_PORTRAIT"
    ∷ image "gemini-3.0-pro-image-landscape" "GEM_PIX_2" "IMAGE_ASPECT_RATIO_LANDSCAPE"
    ∷ image "gemini-3.0-pro-image-portrait" "GEM_PIX_2" "IMAGE_ASPECT_RATIO_PORTRAIT"
    ∷ image "imagen-4.0-generate-preview-landscape" "IMAGEN_3_5" "IMAGE_ASPECT_RATIO_LANDSCAPE"
    ∷ image "imagen-4.0-generate-preview-portrait" "IMAGEN_3_5" "IMAGE_ASPECT_RATIO_PORTRAIT"
    ∷ video "veo_3_1_t2v_fast_portrait" t2v "veo_3_1_t2v_fast_portrait"
        "VIDEO_ASPECT_RATIO_PORTRAIT" false 0 0
    ∷ video "veo_3_1_t2v_fast_landscape" t2v "veo_3_1_t2v_fast" "VIDEO_ASPECT_RATIO_LANDSCAPE" false
        0 0
    ∷ video "veo_2_1_fast_d_15_t2v_portrait" t2v "veo_2_1_fast_d_15_t2v"
        "VIDEO_ASPECT_RATIO_PORTRAIT" false 0 0
    ∷ video "veo_2_1_fast_d_15_t2v_landscape" t2v "veo_2_1_fast_d_15_t2v"
        "VIDEO_ASPECT_RATIO_LANDSCAPE" false 0 0
    ∷ video "veo_2_0_t2v_portrait" t2v "veo_2_0_t2v" "VIDEO_ASPECT_RATIO_PORTRAIT" false 0 0
    ∷ video "veo_2_0_t2v_landscape" t2v "veo_2_0_t2v" "VIDEO_ASPECT_RATIO_LANDSCAPE" false 0 0
    ∷ video "veo_3_1_i2v_s_fast_fl_portrait" i2v "veo_3_1_i2v_s_fast_fl"
        "VIDEO_ASPECT_RATIO_PORTRAIT" true 1 2
    ∷ video "veo_3_1_i2v_s_fast_fl_landscape" i2v "veo_3_1_i2v_s_fast_fl"
        "VIDEO_ASPECT_RATIO_LANDSCAPE" true 1 2
    ∷ video "veo_2_1_fast_d_15_i2v_portrait" i2v "veo_2_1_fast_d_15_i2v"
        "VIDEO_ASPECT_RATIO_PORTRAIT" true 1 2
    ∷ video "veo_2_1_fast_d_15_i2v_landscape" i2v "veo_2_1_fast_d_15_i2v"
        "VIDEO_ASPECT_RATIO_LANDSCAPE" true 1 2
    ∷ video "veo_2_0_i2v_portrait" i2v "veo_2_0_i2v" "VIDEO_ASPECT_RATIO_PORTRAIT" true 1 2
    ∷ video "veo_2_0_i2v_landscape" i2v "veo_2_0_i2v" "VIDEO_ASPECT_RATIO_LANDSCAPE" true 1 2
    ∷ video "veo_3_0_r2v_fast_portrait" r2v "veo_3_0_r2v_fast" "VIDEO_ASPECT_RATIO_PORTRAIT" true 0
        0
    ∷ video "veo_3_0_r2v_fast_landscape" r2v "veo_3_0_r2v_fast" "VIDEO_ASPECT_RATIO_LANDSCAPE" true
        0 0
    ∷ []

unfoldable pub is_flow_model : Text → Bool
unfolding flow_model_config find_entry
is_flow_model model = elim (find_entry model flow_model_config) [ none ↦ false | some c ↦ true ]

unfoldable pub get_flow_model_config : Text → Option ModelConfig
unfolding flow_model_config find_entry
get_flow_model_config model = find_entry model flow_model_config

unfoldable pub get_all_flow_models : List Text
unfolding flow_model_config
get_all_flow_models = map (λ e. e.0) flow_model_config

-- What the handlers rely on: a model that makes a video from frames takes one or two of them.
unfoldable pub frames_fit : ModelConfig → Bool
frames_fit c = elim c.video_type [ i2v ↦ leb 1 c.min_images && leb c.max_images 2 | _ ↦ true ]

abbrev pub all_fit : StringMap ModelConfig → Bool
all_fit [] = true
all_fit ((name, c) ∷ es) = frames_fit c && all_fit es

find_entry-fit :
    (es : StringMap ModelConfig) (model : Text) (c : ModelConfig)
    → all_fit es ≡ true
    → find_entry model es ≡ some c
    → frames_fit c ≡ true
unfolding find_entry
find_entry-fit [] model c all e = cc
find_entry-fit ((name, d) ∷ es) model c all e = ground (arith, find_entry-fit es model c)

pub get_flow_model_config-fit :
    (model : Text) (c : ModelConfig) → get_flow_model_config model ≡ some c → frames_fit c ≡ true
unfolding get_flow_model_config flow_model_config frames_fit
get_flow_model_config-fit model c e = find_entry-fit flow_model_config model c refl e
