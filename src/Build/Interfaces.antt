-- ===== src/Build/Interfaces.antt =====
-- The interfaces Templatable (types.go), VolumeBuilder (volume.go) and EnvBuilder (env.go), each as
-- the record of what its methods return.
use theo_forge.Prelude.{Text, Result}
use theo_forge.Model.Basic.{EnvVarModel}
use theo_forge.Model.Volumes.{VolumeModel, VolumeMountModel}
use theo_forge.Model.Templates.{TemplateModel}

pub record Templatable : Type 0 where
  pub build_template : Result TemplateModel
  pub get_name : Text

pub record VolumeBuilder : Type 0 where
  pub build_volume : Result VolumeModel
  pub build_volume_mount : VolumeMountModel

pub record EnvBuilder : Type 0 where
  pub build : EnvVarModel
